-- ===== src/Transfer.antt =====
-- How the kernel modules move bytes between user space and their buffers: node_read of
-- homework6/rand_read.c, node_write of homework6/rand_write.c and of
-- homework9/module_device/module_device_write.c (linux_kernel_development).
-- A buffer is a list of 1024 bytes. The user's memory is a function: the byte that get_user stores
-- for an address, 0 where it faults. kstrtol is a parameter.
pub mod Copy
pub mod Write
pub mod Read
mod Tests
use linux_c_homeworks.Prelude.{
  ℕ, zero, suc, ◌+◌, ◌-◌, ◌%◌, ◌^◌, Bool, true, false, Option, none, some, List, [], ◌∷◌, ◌++◌, ltb,
  leb, ◌==◌, ◌||◌, if◌then◌else◌, length, set, get_elem?,
}
use linux_c_homeworks.Prelude.Int.{ℤ, pos, negsuc, ltb_ℤ, leb_ℤ}
use linux_c_homeworks.Prelude.Words.{u32, u64, i32, i64}

abbrev pub buf_size : ℕ
buf_size = 1024

-- `if(ofs + length > limit) length = limit - ofs;`, in size_t, with the subtraction in int.
unfoldable pub clip : ℤ → ℕ → ℕ → ℕ
clip ofs limit length =
    if ltb limit ((u64 ofs + length) % 2 ^ 64) then u64 (i32 (limit + 2 ^ 32 - u32 ofs)) else length

-- The rounds of a loop that counts an ssize_t down from the length while it is positive.
unfoldable pub rounds : ℕ → ℕ
rounds length = if ltb length (2 ^ 63) then length else 0

-- The loop with get_user from the index p on; `none` is an access outside the buffer.
unfoldable pub copy_in : (ℕ → ℕ) → ℕ → ℕ → ℕ → List ℕ → Option (List ℕ)
copy_in user zero p i buffer = some buffer
copy_in user (suc n) p i buffer = elim (ltb p (length buffer)) [
  | true ↦ copy_in user n (p + 1) (i + 1) (set buffer p (user i))
  | false ↦ none
]

-- The loop with put_user from the index p on: the bytes that reach the user.
pub copy_out : ℕ → ℕ → List ℕ → Option (List ℕ)
copy_out zero p buffer = some []
copy_out (suc n) p buffer = elim (get_elem? buffer p) [
  | none ↦ none
  | some byte ↦ elim (copy_out n (p + 1) buffer) [ none ↦ none | some bytes ↦ some (byte ∷ bytes) ]
]

-- `*(p - 1) = '\0'` with p the index after the bytes copied.
unfoldable pub terminate : ℕ → List ℕ → Option (List ℕ)
terminate p buffer =
    if p == 0
    then none
    else if ltb (p - 1) (length buffer)
    then some (set buffer (p - 1) 0)
    else none

-- Copying from a negative index accesses memory before the buffer, in the loop or after it.
unfoldable pub fill_buffer : (ℕ → ℕ) → ℤ → ℕ → List ℕ → Option (List ℕ)
fill_buffer user (negsuc n) length buffer = none
fill_buffer user (pos p) length buffer = elim (copy_in user (rounds length) p 0 buffer) [
  | none ↦ none
  | some filled ↦ terminate (p + rounds length) filled
]

-- What kstrtol does: it stores a number and returns 0, or returns a negative code.
pub data Parsed : Type 0 where
  number : ℤ → Parsed
  error : ℕ → Parsed

-- The variables of the module that a write changes, with the offset of the open file.
pub record Device : Type 0 where
  pub buffer : List ℕ
  pub rand_nums_amount : ℤ
  pub offset : ℕ

module _ (kstrtol : List ℕ → Parsed) (user : ℕ → ℕ) where
  -- After the copy in homework6: the offset moves on.
  pub parse_rand : Device → ℕ → List ℕ → ℤ × Device
  parse_rand d len buffer =
      let d' = record d { buffer = buffer; offset = d.offset + len } in
      elim (kstrtol buffer) [
        | error n ↦ (negsuc n, d')
        | number v ↦ (i64 len, record d' { rand_nums_amount = v })
      ]

  -- With the offset in `int` and the clipped length (which is not used where the offset is too
  -- large); `none` is an access outside r_buffer.
  pub rand_write_at : ℤ → ℕ → Device → Option (ℤ × Device)
  rand_write_at ofs len d =
      if leb_ℤ (pos (buf_size - 1)) ofs
      then some (pos 0, d)
      else elim (fill_buffer user ofs len d.buffer) [
        | none ↦ none
        | some buffer ↦ some (parse_rand d len buffer)
      ]

  -- node_write of homework6; `none` is an access outside r_buffer.
  pub rand_write : ℕ → Device → Option (ℤ × Device)
  rand_write length d =
      let ofs = i32 d.offset in rand_write_at ofs (clip ofs (buf_size - 1) length) d

  -- After the copy in homework9: the offset goes back to 0, and the amount is checked once it is
  -- stored. The mutex is held from here to the end.
  pub parse_device : Device → ℕ → List ℕ → ℤ × Device
  parse_device d len buffer =
      let d' = record d { buffer = buffer; offset = 0 } in
      elim (kstrtol buffer) [
        | error n ↦ (negsuc n, d')
        | number v ↦
            if leb_ℤ v (pos 0) || ltb_ℤ (pos buf_size) v
            then (negsuc 21, record d' { rand_nums_amount = v })
            else (i64 len, record d' { rand_nums_amount = v })
      ]

  pub device_write_at : ℤ → ℕ → Device → Option (ℤ × Device)
  device_write_at ofs len d =
      if leb_ℤ (pos (buf_size - 1)) ofs
      then some (pos 0, d)
      else elim (fill_buffer user ofs len d.buffer) [
        | none ↦ none
        | some buffer ↦ some (parse_device d len buffer)
      ]

  -- node_write of homework9; `none` is an access outside w_buffer.
  pub device_write : ℕ → Device → Option (ℤ × Device)
  device_write length d =
      let ofs = i32 d.offset in device_write_at ofs (clip ofs (buf_size - 1) length) d

-- strlen: the bytes before the first 0. The last byte of r_buffer is 0 from the start, and a write
-- stops before it.
pub strlen : List ℕ → ℕ
strlen [] = 0
strlen (c ∷ cs) = if c == 0 then 0 else suc (strlen cs)

-- node_read of homework6 with the offset in `int` and the clipped length (which is not used where
-- the offset is past the message).
pub rand_read_at : ℤ → ℕ → List ℕ → ℕ → Option (ℤ × List ℕ × ℕ)
rand_read_at ofs len r_buffer offset =
    if leb_ℤ (pos (strlen r_buffer)) ofs then some (pos 0, [], offset) else elim ofs [
      | negsuc n ↦ if rounds len == 0 then some (i64 len, [], offset + len) else none
      | pos p ↦ elim (copy_out (rounds len) p r_buffer) [
        | none ↦ none
        | some bytes ↦ some (i64 len, bytes, offset + len)
      ]
    ]

-- The code, the bytes that reach the user, and the new offset; `none` is an access outside r_buffer.
pub rand_read : List ℕ → ℕ → ℕ → Option (ℤ × List ℕ × ℕ)
rand_read r_buffer length offset =
    let ofs = i32 offset in rand_read_at ofs (clip ofs (strlen r_buffer) length) r_buffer offset
