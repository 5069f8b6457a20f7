-- ===== src/Chardev/Modules/Device.antt =====
-- homework9/module_device: create_device and the init and exit functions of module_device_main.c,
-- which also allocates nums_array and starts a thread.
use linux_c_homeworks.Prelude.{Bool, Option, List}
use linux_c_homeworks.Chardev.Open
use linux_c_homeworks.Chardev.Open.{Wake}
use linux_c_homeworks.Prelude.{◌≡◌, ◌⊎◌, ◌+◌, true, false, not, arith, if◌then◌else◌, ◌&&◌}
use linux_c_homeworks.Prelude.Int.{ℤ, pos, eqb_ℤ}
use linux_c_homeworks.Chardev.{
  memory, thread, task, Pointer, null, valid, Answers, World, acquire, acquire_if, release, is_held,
  is_null, is_valid, minus_enosys,
}
use linux_c_homeworks.Chardev.Create
use linux_c_homeworks.Chardev.Create.{
  all_succeed, registered, IsTested, create_device_atomic, create_device_succeeds, remove_device,
}

pub create_device : Answers → World → ℤ × World
create_device = Create.create_device

-- kthread_stop(thread), put_task_struct(thread) and get_task_struct(thread) on a pointer that is
-- not valid are misuse.
pub start_thread : Answers → World → ℤ × World
start_thread k w =
    if is_null k.kthread_create then (minus_enosys, release thread (release memory w)) else (
      pos 0,
      if is_valid k.kthread_create
          then acquire task (acquire thread w)
          else record w { misuse = w.misuse + 1 },
    )

pub module_device_init : Answers → World → ℤ × World
module_device_init k w =
    let (err, w') = create_device k w in
    if not (eqb_ℤ err (pos 0))
    then (err, w')
    else if is_null k.kmalloc
    then (minus_enosys, w')
    else start_thread k (acquire_if (is_valid k.kmalloc) memory w')

-- What the exit function does with the pointers that the variables thread and nums_array hold.
pub module_device_deinit : Pointer → Pointer → World → World
module_device_deinit thread_pointer nums_array w =
    let w₁ = remove_device w in
    let w₂ = if is_null thread_pointer then w₁ else release thread w₁ in
    let w₃ = release task w₂ in if is_null nums_array then w₃ else release memory w₃

-- Where the kernel fails only in the ways that are tested for, by NULL pointers and the codes of
-- create_device: the init function returns 0 exactly if everything succeeds. If the device cannot
-- be made it changes nothing. If the allocation or the thread fails, the device stays registered,
-- and after the failure of the thread a thread has been stopped that was never started.
pub module_device_init_lem :
    (k : Answers) (w : World)
    → IsTested k
    → (k.kmalloc ≡ null) ⊎ (k.kmalloc ≡ valid)
    → (k.kthread_create ≡ null) ⊎ (k.kthread_create ≡ valid)
    → is_held thread w.held ≡ false
    → ((module_device_init k w).1 ≡ (
        if not (all_succeed k)
        then w
        else if is_null k.kmalloc
        then registered w
        else if is_null k.kthread_create
        then record (registered w) { misuse = w.misuse + 1 }
        else acquire task (acquire thread (acquire memory (registered w)))))
      × (eqb_ℤ (module_device_init k w).0 (pos 0)
          ≡ (all_succeed k && is_valid k.kmalloc && is_valid k.kthread_create))
unfolding module_device_init create_device start_thread
module_device_init_lem k w t tm tk free = ground (arith, create_device_atomic k w t)

-- The exit function gives back all that a load holds in which every call succeeded.
pub module_device_deinit-module_device_init :
    (k : Answers) (w : World)
    → all_succeed k ≡ true
    → k.kmalloc ≡ valid
    → k.kthread_create ≡ valid
    → module_device_deinit valid valid (module_device_init k w).1 ≡ w
unfolding module_device_deinit module_device_init create_device start_thread remove_device
module_device_deinit-module_device_init k w h hm ht = ground (arith, create_device_succeeds k w h)

-- node_open and node_release of module_device_or.c.
pub node_open : Bool → List Wake → Bool → Option (ℤ × Bool)
node_open = Open.node_open

pub node_release : ℤ × Bool
node_release = Open.node_release
