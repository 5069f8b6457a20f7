-- ===== src/Chardev/Modules/Interface.antt =====
-- homework9/module_interface: create_device and the init and exit functions of
-- module_interface_main.c.
use linux_c_homeworks.Prelude.{Bool, Option, List}
use linux_c_homeworks.Chardev.Open
use linux_c_homeworks.Chardev.Open.{Wake}
use linux_c_homeworks.Prelude.{◌≡◌, not, arith, if◌then◌else◌}
use linux_c_homeworks.Prelude.Int.{ℤ, pos, eqb_ℤ}
use linux_c_homeworks.Chardev.{Answers, World}
use linux_c_homeworks.Chardev.Create
use linux_c_homeworks.Chardev.Create.{
  all_succeed, registered, IsTested, create_device_atomic, remove_device, remove_device-registered,
}

pub create_device : Answers → World → ℤ × World
create_device = Create.create_device

pub module_interface_init : Answers → World → ℤ × World
module_interface_init k w =
    let (err, w') = create_device k w in if not (eqb_ℤ err (pos 0)) then (err, w') else (pos 0, w')

pub module_interface_deinit : World → World
module_interface_deinit w = remove_device w

-- Where the kernel fails only in the ways that are tested for, loading the interface module holds
-- the four resources if every call succeeds and nothing new else; unloading it after a load in
-- which every call succeeded gives everything back.
pub module_interface_lem :
    (k : Answers) (w : World)
    → IsTested k
    → ((module_interface_init k w).1 ≡ (if all_succeed k then registered w else w))
      × (module_interface_deinit (registered w) ≡ w)
unfolding module_interface_init create_device module_interface_deinit
module_interface_lem k w t = ground (arith, create_device_atomic k w t, remove_device-registered w)

-- node_open and node_release of module_interface_or.c.
pub node_open : Bool → List Wake → Bool → Option (ℤ × Bool)
node_open = Open.node_open

pub node_release : ℤ × Bool
node_release = Open.node_release
