-- ===== src/Transfer/Write.antt =====
-- What node_write does in homework6 and homework9.
use linux_c_homeworks.Prelude.{
  ℕ, ◌-◌, ◌<◌, ◌^◌, ◌≡◌, refl, ap, ◌∙◌, false, some, none, List, arith, length, if◌then◌else◌, ◌||◌,
  Bool-cases, inl, inr,
}
use linux_c_homeworks.Prelude.Int.{ℤ, pos, negsuc, leb_ℤ, ltb_ℤ}
use linux_c_homeworks.Transfer.{
  buf_size, clip, copy_in, rounds, terminate, fill_buffer, Parsed, number, Device, parse_rand,
  rand_write, rand_write_at, parse_device, device_write, device_write_at,
}
use linux_c_homeworks.Transfer.Copy.{
  Written, fill_buffer_lem, clipped, clip_lem, i32_small, i64_small,
}

rand_write_at_lem :
    (kstrtol : List ℕ → Parsed) (user : ℕ → ℕ) (len : ℕ) (d : Device) (ys : List ℕ)
    → leb_ℤ (pos (buf_size - 1)) (pos d.offset) ≡ false
    → fill_buffer user (pos d.offset) len d.buffer ≡ some ys
    → rand_write_at kstrtol user (pos d.offset) len d ≡ some (parse_rand kstrtol user d len ys)
unfolding rand_write_at
rand_write_at_lem kstrtol user len d ys room run = rw (room, run, rand_write_at)

device_write_at_lem :
    (kstrtol : List ℕ → Parsed) (user : ℕ → ℕ) (len : ℕ) (d : Device) (ys : List ℕ)
    → leb_ℤ (pos (buf_size - 1)) (pos d.offset) ≡ false
    → fill_buffer user (pos d.offset) len d.buffer ≡ some ys
    → device_write_at kstrtol user (pos d.offset) len d ≡ some (parse_device kstrtol user d len ys)
unfolding device_write_at
device_write_at_lem kstrtol user len d ys room run = rw (room, run, device_write_at)

parse_device_number :
    (kstrtol : List ℕ → Parsed) (user : ℕ → ℕ) (len : ℕ) (d : Device) (ys : List ℕ) (v : ℤ)
    → len < 2 ^ 63
    → kstrtol ys ≡ number v
    → parse_device kstrtol user d len ys ≡ (
      if leb_ℤ v (pos 0) || ltb_ℤ (pos buf_size) v then negsuc 21 else pos len,
      record d { buffer = ys; rand_nums_amount = v; offset = 0 },
    )
unfolding parse_device
parse_device_number kstrtol user len d ys v small parsed =
    elim (Bool-cases (leb_ℤ v (pos 0) || ltb_ℤ (pos buf_size) v)) [
      | inl bad ↦ rw (parsed, parse_device, bad)
      | inr good ↦ rw (parsed, parse_device, good, i64_small len small)
    ]

module _ (kstrtol : List ℕ → Parsed) (user : ℕ → ℕ) (n : ℕ) (d : Device) where
  abbrev written : ℕ
  written = clipped d.offset (buf_size - 1) n

  -- The part of node_write before the text is parsed.
  filled :
      length d.buffer ≡ buf_size
      → d.offset < buf_size - 1
      → 0 < n
      → n < 2 ^ 63
      → (ys : List ℕ) × (fill_buffer user (pos d.offset) written d.buffer ≡ some ys)
        × Written user d.offset written d.buffer ys
  filled size inside some_bytes small =
      fill_buffer_lem user d.offset written d.buffer (ground arith) (ground arith) (ground arith)

  room : d.offset < buf_size - 1 → leb_ℤ (pos (buf_size - 1)) (pos d.offset) ≡ false
  room inside = ground arith

  clip-written :
      d.offset < buf_size - 1 → n < 2 ^ 63 → clip (pos d.offset) (buf_size - 1) n ≡ written
  clip-written inside small = clip_lem d.offset (buf_size - 1) n (omega arith) (omega arith) small

  -- node_write of homework6 with some bytes to write and room for one: it stays within r_buffer.
  -- The bytes that fit are at the offset, but the last of them is replaced by the end of the
  -- string; what is parsed is the whole buffer, with what older writes left before it.
  pub rand_write_lem :
      length d.buffer ≡ buf_size
      → d.offset < buf_size - 1
      → 0 < n
      → n < 2 ^ 63
      → (ys : List ℕ) × (rand_write kstrtol user n d ≡ some (parse_rand kstrtol user d written ys))
        × Written user d.offset written d.buffer ys
  unfolding rand_write
  rand_write_lem size inside some_bytes small =
      let (ys, run, w) = filled size inside some_bytes small in
      (
        ys,
        rw (i32_small d.offset (omega arith), clip-written inside small)
            (rand_write_at_lem kstrtol user written d ys (room inside) run),
        w,
      )

  -- node_write of homework9 with some bytes to write and room for one: the same, except for what is
  -- parsed into the device.
  pub device_write_lem :
      length d.buffer ≡ buf_size
      → d.offset < buf_size - 1
      → 0 < n
      → n < 2 ^ 63
      → (ys : List ℕ) × (device_write kstrtol user n d
          ≡ some (parse_device kstrtol user d written ys))
        × Written user d.offset written d.buffer ys
  unfolding device_write
  device_write_lem size inside some_bytes small =
      let (ys, run, w) = filled size inside some_bytes small in
      (
        ys,
        rw (i32_small d.offset (omega arith), clip-written inside small)
            (device_write_at_lem kstrtol user written d ys (room inside) run),
        w,
      )

  -- Where kstrtol reads a number v from the buffer with the new bytes in it, node_write of homework9
  -- stores it before it looks at it: the code is -EINVAL exactly if v is not from 1 to 1024, but
  -- rand_nums_amount is v in either case.
  pub device_write_stores :
      (v : ℤ)
      → length d.buffer ≡ buf_size
      → d.offset < buf_size - 1
      → 0 < n
      → n < 2 ^ 63
      → ((ys : List ℕ) → Written user d.offset written d.buffer ys → kstrtol ys ≡ number v)
      → (d' : Device) × (device_write kstrtol user n d
          ≡ some (if leb_ℤ v (pos 0) || ltb_ℤ (pos buf_size) v then negsuc 21 else pos written, d'))
        × (d'.rand_nums_amount ≡ v)
        × (d'.offset ≡ 0)
  device_write_stores v size inside some_bytes small parsed =
      let (ys, run, w) = device_write_lem size inside some_bytes small in
      (
        record d { buffer = ys; rand_nums_amount = v; offset = 0 },
        run
            ∙ ap some
                (parse_device_number kstrtol user written d ys v (ground arith) (parsed ys w)),
        refl,
        refl,
      )

-- A write of 0 bytes at the offset 0 accesses the byte before the buffer, in both modules.
pub write_nothing :
    (kstrtol : List ℕ → Parsed) (user : ℕ → ℕ) (d : Device)
    → d.offset ≡ 0
    → (rand_write kstrtol user 0 d ≡ none) × (device_write kstrtol user 0 d ≡ none)
unfolding rand_write rand_write_at device_write device_write_at clip fill_buffer copy_in rounds
    terminate
write_nothing kstrtol user d e = rw (e) (refl, refl)
