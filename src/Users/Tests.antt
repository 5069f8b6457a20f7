-- ===== src/Users/Tests.antt =====
-- Devices that answer, one that cannot be read, and one that gives characters without a 0.
use linux_c_homeworks.Prelude.{ℕ, ◌≡◌, refl, true, List, [], ◌∷◌, replicate}
use linux_c_homeworks.Prelude.Int.{pos, negsuc}
use linux_c_homeworks.Chardev.{valid}
use linux_c_homeworks.Users.{
  Device, read_from_device, write_to_device, main, transfer, checked, open_device, close_device,
  read_second,
}
use linux_c_homeworks.Users.Closing.{IsAnswered, device_lem}

abbrev working : Device
working = record {
  opened = pos 3;
  moved = pos 2;
  closed = pos 0;
  stored = 104 ∷ 105 ∷ [];
  is_mapped = true;
  memory = 104 ∷ 0 ∷ [];
  unmapped = pos 0;
}

abbrev unreadable : Device
unreadable = record working { moved = negsuc 4; stored = [] }

abbrev buffer : List ℕ
buffer = replicate 256 0

-- The second radio cannot be read: main stops there with exit code 1.
second_fails : (main working unreadable working buffer).status ≡ 1
unfolding main read_from_device checked open_device transfer close_device read_second
second_fails = refl

device_lem_example :
    IsAnswered unreadable true (read_from_device unreadable valid valid buffer 256)
    × IsAnswered unreadable true (write_to_device unreadable valid valid buffer 256)
device_lem_example = device_lem unreadable valid valid buffer 256
