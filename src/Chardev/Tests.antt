-- ===== src/Chardev/Tests.antt =====
-- The theorems about the character devices at concrete values.
use linux_c_homeworks.Prelude.{◌≡◌, ◌+◌, ◌&&◌, true, false, not, List, [], ◌∷◌, refl, if◌then◌else◌}
use linux_c_homeworks.Prelude.Int.{pos, negsuc, ltb_ℤ, eqb_ℤ}
use linux_c_homeworks.Chardev.{null, err_ptr, valid, is_null, Answers, World}
use linux_c_homeworks.Chardev.Create.{create_device, remove_device, unnoticed, create_device_undone}
use linux_c_homeworks.Chardev.Open.{Wake, node_open_lem}
use linux_c_homeworks.Chardev.Sharing.{
  Reach, start, next, opened, refused, IsExclusive, Reach-IsExclusive,
}

abbrev nothing : World
nothing = record { held = []; misuse = 0 }

abbrev good : Answers
good = record {
  proc_create = valid;
  alloc_chrdev_region = pos 0;
  class_create = valid;
  device_create = valid;
  cdev_add = pos 0;
  request_irq = pos 0;
  kmalloc = valid;
  kthread_create = valid;
}

abbrev no_thread : Answers
no_thread = record good { kthread_create = null }

-- class_create gives an error pointer, device_create another one, and cdev_add -ENOMEM.
abbrev out_of_memory : Answers
out_of_memory = record good {
  class_create = err_ptr;
  device_create = err_ptr;
  cdev_add = negsuc 11;
}

three_unnoticed : unnoticed out_of_memory ≡ 3
unfolding unnoticed
three_unnoticed = refl

create_device_undone_example :
    ((if eqb_ℤ (create_device out_of_memory nothing).0 (pos 0)
        then remove_device (create_device out_of_memory nothing).1
        else (create_device out_of_memory nothing).1)
      ≡ record nothing { misuse = 0 + unnoticed out_of_memory })
    × (eqb_ℤ (create_device out_of_memory nothing).0 (pos 0) ≡ (
        not (ltb_ℤ out_of_memory.alloc_chrdev_region (pos 0))
        && not (is_null out_of_memory.class_create)
        && not (is_null out_of_memory.device_create)
        && not (eqb_ℤ out_of_memory.cdev_add (negsuc 0))))
create_device_undone_example = create_device_undone out_of_memory nothing (refl, refl, refl, refl)

abbrev cdev_busy : Answers
cdev_busy = record good { cdev_add = negsuc 15 }

-- Woken once while the device is still open, then when it is free.
abbrev two_wakes : List Wake
two_wakes =
    record { already_opened = true; words = [] }
    ∷ record { already_opened = false; words = [] }
    ∷ []

-- One process opens the device, a second is refused.
refused_once : Reach (record { already_opened = true; users = 1 })
refused_once =
    next (next start (opened true [] true _ (node_open_lem true [] false)))
      (refused true [] 10 true _ (node_open_lem true [] true))

Reach-IsExclusive_example : IsExclusive (record { already_opened = true; users = 1 })
Reach-IsExclusive_example = Reach-IsExclusive refused_once
