-- ===== src/VirtualBox/Vtx.antt =====
-- drivers/virtualbox/vtx.go and virtualbox_linux.go: whether hardware virtualization is there.
use p2box.Base.{Bool, false, Text, codes, contains, List, [], ◌∷◌, ◌||◌, ◌&&◌, not}
use p2box.Go.{Go, Result, ok, err, ◌>>=◌, pure}

abbrev pub tells_disabled : Text → Bool
tells_disabled line =
    (contains line (codes "VT-x is disabled")
      && not (
          contains line
            (codes "Falling back to raw-mode: VT-x is disabled in the BIOS for all CPU modes")))
    || (contains line (codes "the host CPU does NOT support HW virtualization")
        || (contains line (codes "VERR_VMX_UNABLE_TO_START_VM")
            || (contains line (codes "Power up failed")
                && contains line (codes "VERR_VMX_NO_VMX"))))

unfoldable pub any_tells_disabled : List Text → Bool
any_tells_disabled [] = false
any_tells_disabled (line ∷ lines) = tells_disabled line || any_tells_disabled lines

-- `IsVTXDisabledInTheVM`, over the lines of the log
unfoldable pub is_vtx_disabled_in_the_vm : {W : Type 0} → Go W (List Text) → Go W Bool
is_vtx_disabled_in_the_vm read_log = do lines ← read_log; pure (any_tells_disabled lines)

-- `isVTXDisabled`, over the text of /proc/cpuinfo
unfoldable pub cpuinfo_disables : Text → Bool
cpuinfo_disables cpuinfo = not (contains cpuinfo (codes "vmx") || contains cpuinfo (codes "svm"))

abbrev pub unless_unreadable : Result Text → Bool
unless_unreadable (err e) = false
unless_unreadable (ok cpuinfo) = cpuinfo_disables cpuinfo

-- `IsVTXDisabled` of Linux: a file that cannot be read disables nothing.
unfoldable pub is_vtx_disabled : {W : Type 0} → Go W Text → Go W Bool
is_vtx_disabled read_cpuinfo w = let (r, w') = read_cpuinfo w in (ok (unless_unreadable r), w')
