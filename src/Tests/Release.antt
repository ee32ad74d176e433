-- ===== src/Tests/Release.antt =====
-- /etc/os-release files.
use p2box.Base.{true, lacks, Text, ◌≡◌, refl, codes, Lacks-lacks, [], some}
use p2box.Provision.Release.{OsRelease, empty, new_os_release}
use p2box.Provision.Release.RoundTrip.{IsPlain, entries, write_lines, new_os_release-write_lines}

IsPlain-lacks : (s : Text) → lacks s b'=' ≡ true → lacks s b'\n' ≡ true → IsPlain s
IsPlain-lacks s h k = (Lacks-lacks s b'=' h, Lacks-lacks s b'\n' k)

abbrev fedora : OsRelease
fedora = record empty { name = codes "Fedora Linux"; id = codes "fedora" }

new_os_release-write_lines_example : new_os_release (write_lines (entries fedora)) ≡ some fedora
new_os_release-write_lines_example = new_os_release-write_lines fedora (record {
  ansi_color = IsPlain-lacks [] refl refl;
  name = IsPlain-lacks (codes "Fedora Linux") refl refl;
  version = IsPlain-lacks [] refl refl;
  variant = IsPlain-lacks [] refl refl;
  variant_id = IsPlain-lacks [] refl refl;
  id = IsPlain-lacks (codes "fedora") refl refl;
  id_like = IsPlain-lacks [] refl refl;
  pretty_name = IsPlain-lacks [] refl refl;
  version_id = IsPlain-lacks [] refl refl;
  home_url = IsPlain-lacks [] refl refl;
  support_url = IsPlain-lacks [] refl refl;
  bug_report_url = IsPlain-lacks [] refl refl;
})
