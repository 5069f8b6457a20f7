-- ===== src/Chardev/Modules/Keyboard.antt =====
-- homework12/keyboard_irq: create_device, the interrupt handler and the init and exit functions of
-- keyboard_irq_main.c.
use linux_c_homeworks.Prelude.{Bool, Option, List}
use linux_c_homeworks.Chardev.Open
use linux_c_homeworks.Chardev.Open.{Wake}
use linux_c_homeworks.Prelude.{◌≡◌, true, not, arith, if◌then◌else◌, ◌&&◌}
use linux_c_homeworks.Prelude.Int.{ℤ, pos, negsuc, eqb_ℤ}
use linux_c_homeworks.Chardev.{irq, Answers, World, acquire, release}
use linux_c_homeworks.Chardev.Create
use linux_c_homeworks.Chardev.Create.{
  all_succeed, registered, IsTested, create_device_atomic, create_device_succeeds, remove_device,
}

pub create_device : Answers → World → ℤ × World
create_device = Create.create_device

pub keyboard_irq_init : Answers → World → ℤ × World
keyboard_irq_init k w =
    let (err, w') = create_device k w in
    if not (eqb_ℤ err (pos 0))
    then (err, w')
    else if not (eqb_ℤ k.request_irq (pos 0))
    then (negsuc 0, w')
    else (pos 0, acquire irq w')

-- synchronize_irq only waits.
pub keyboard_irq_cleanup : World → World
keyboard_irq_cleanup w = release irq (remove_device w)

-- Where the kernel fails only in the ways that are tested for: keyboard_irq_init holds the device
-- and the interrupt if every call and request_irq succeed, and nothing new if the device cannot be
-- made; but if only request_irq fails, it returns -1 and keeps the device registered.
pub keyboard_irq_init_lem :
    (k : Answers) (w : World)
    → IsTested k
    → ((keyboard_irq_init k w).1 ≡ (
        if all_succeed k
        then (if eqb_ℤ k.request_irq (pos 0) then acquire irq (registered w) else registered w)
        else w))
      × (eqb_ℤ (keyboard_irq_init k w).0 (pos 0) ≡ (all_succeed k && eqb_ℤ k.request_irq (pos 0)))
unfolding keyboard_irq_init create_device
keyboard_irq_init_lem k w t = ground (arith, create_device_atomic k w t)

-- keyboard_irq_cleanup gives back all that a load holds in which every call succeeded.
pub keyboard_irq_cleanup-keyboard_irq_init :
    (k : Answers) (w : World)
    → all_succeed k ≡ true
    → k.request_irq ≡ pos 0
    → keyboard_irq_cleanup (keyboard_irq_init k w).1 ≡ w
unfolding keyboard_irq_cleanup keyboard_irq_init create_device remove_device
keyboard_irq_cleanup-keyboard_irq_init k w h hi = ground (arith, create_device_succeeds k w h)

-- node_open and node_release of keyboard_irq_or.c.
pub node_open : Bool → List Wake → Bool → Option (ℤ × Bool)
node_open = Open.node_open

pub node_release : ℤ × Bool
node_release = Open.node_release
