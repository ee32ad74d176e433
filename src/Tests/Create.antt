-- ===== src/Tests/Create.antt =====
-- The command create, on the lab.
use p2box.Base.{Lacks-lacks, ℤ, codes, List, [], ◌∷◌, none, some, ◌≡◌, refl, str_eq, if◌then◌else◌}
use p2box.Go.{err, ok, pure, host_already_exists}
use p2box.Drivers.{Flag, int_flag}
use p2box.Drivers.Check.{an_int}
use p2box.Commands.Create.{CreateApi, create_options, cmd_create_inner}
use p2box.Commands.Create.Values.{CommandLine, get_driver_opts}
use p2box.Commands.Create.Reads.{value_of, get_driver_opts-value_of}
use p2box.Commands.Create.Lookup.{outer_driver_name}
use p2box.Commands.Create.Finds.{outer_driver_name_finds}
use p2box.Commands.Create.Steps.{cmd_create_inner_exists}
use p2box.Host.{Host}
use p2box.Tests.Lab.{Lab, idle, lab_driver, host_of, store_of}

-- create --cpus 2 box
abbrev pub line : CommandLine
line = record {
  args = "box" ∷ [];
  is_set = λ name. str_eq name "cpus";
  string = λ name. "none";
  string_slice = λ name. [];
  global_string = λ name. "/store";
  flag_names = "cpus" ∷ "memory" ∷ [];
  generic = λ name. if str_eq name "cpus" then some (an_int (ℤ.pos 2)) else none;
}

abbrev cpus : List Flag
cpus = int_flag "cpus" "" "" (ℤ.pos 1) ∷ int_flag "memory" "" "" (ℤ.pos 512) ∷ []

abbrev lab_api : CreateApi Lab
lab_api = record {
  new_host = λ driver_name raw_driver. pure (host_of lab_driver);
  store = store_of lab_driver;
  create_host = λ h. h.driver.create;
  marshal_bare = λ name path. ok "{}";
  join = λ names. "/certs";
  base_dir = "/store";
}

get_driver_opts-value_of_example :
    (get_driver_opts line cpus).values "cpus" ≡ value_of line cpus "cpus"
get_driver_opts-value_of_example = get_driver_opts-value_of line cpus "cpus"

value_of_test : value_of line cpus "cpus" ≡ some (an_int (ℤ.pos 2))
value_of_test = refl

outer_driver_name_finds_example :
    (outer_driver_name [] (codes "create" ∷ codes "--driver=qemu" ∷ codes "box" ∷ [])
      ≡ codes "qemu")
    × (outer_driver_name [] (codes "create" ∷ codes "-d=qemu" ∷ codes "box" ∷ []) ≡ codes "qemu")
    × (outer_driver_name [] (codes "create" ∷ codes "--driver" ∷ codes "qemu" ∷ codes "box" ∷ [])
        ≡ codes "qemu")
    × (outer_driver_name [] (codes "create" ∷ codes "-d" ∷ codes "qemu" ∷ codes "box" ∷ [])
        ≡ codes "qemu")
    × (outer_driver_name [] (codes "create" ∷ []) ≡ codes "virtualbox")
outer_driver_name_finds_example =
    outer_driver_name_finds [] (codes "qemu") (codes "create" ∷ []) (codes "box" ∷ []) (refl, tt)
      (Lacks-lacks (codes "qemu") b'=' refl) (λ e. cc)

cmd_create_inner_exists_example :
    cmd_create_inner lab_api line idle ≡ (err (host_already_exists "box"), idle)
unfolding p2box.Commands.Create.validate_host_name
cmd_create_inner_exists_example =
    cmd_create_inner_exists lab_api line idle "box"
      (record (host_of lab_driver) {
        host_options = some (create_options lab_api.join lab_api.base_dir line "box");
      })
      refl refl refl
