-- ===== src/Users/Mapping.antt =====
-- read_from_mmap of user_file/main.c.
use linux_c_homeworks.Prelude.{
  ℕ, ◌+◌, ◌-◌, ◌≡◌, refl, Bool, true, List, [], ◌∷◌, ◌&&◌, not, arith, Bool-cases, inl, inr,
}
use linux_c_homeworks.Prelude.Int.{pos, ltb_ℤ, eqb_ℤ}
use linux_c_homeworks.Chardev.{Pointer}
use linux_c_homeworks.Users.{
  Device, Call, opens, fails, reads, writes, closes, maps, unmaps, Outcome, refused, open_device,
  map_device, read_from_mmap,
}
use linux_c_homeworks.Users.Closing.{left_open, are_given, checked_lem}

-- How many mappings are left after a list of calls, when mmap works.
abbrev pub left_mapped : ℕ → List Call → ℕ
left_mapped n [] = n
left_mapped n (opens ∷ calls) = left_mapped n calls
left_mapped n (fails ∷ calls) = left_mapped n calls
left_mapped n (reads ∷ calls) = left_mapped n calls
left_mapped n (writes ∷ calls) = left_mapped n calls
left_mapped n (closes ∷ calls) = left_mapped n calls
left_mapped n (maps ∷ calls) = left_mapped (n + 1) calls
left_mapped n (unmaps ∷ calls) = left_mapped (n - 1) calls

abbrev IsMapped : Device → Bool → Outcome → Type 0
IsMapped d works o =
    (eqb_ℤ o.code (pos 0) ≡ works)
    × (ltb_ℤ o.code (pos 0) ≡ not works)
    × (left_open 0 o.calls ≡ 0)
    × (d.is_mapped ≡ true → left_mapped 0 o.calls ≡ 0)

open_lem :
    (d : Device)
    → IsMapped d (not (ltb_ℤ d.opened (pos 0)) && d.is_mapped) (open_device d (map_device d))
unfolding open_device map_device refused
open_lem d = elim (Bool-cases (ltb_ℤ d.opened (pos 0))) [
  | inl bad ↦ rw (bad, open_device) (ground arith, ground arith, refl, λ e. refl)
  | inr good ↦ elim (Bool-cases d.is_mapped) [
    | inl mapped ↦ rw (good, mapped, open_device, map_device) (refl, refl, refl, λ e. refl)
    | inr failed ↦ rw (good, failed, open_device, map_device) (refl, refl, refl, λ e. absurd (cc e))
  ]
]

-- read_from_mmap returns 0 exactly when its arguments are given, the device opens and mmap works, and
-- else a negative code; whatever happens it leaves no file open, nor a mapping that mmap has made.
pub mmap_lem :
    (d : Device) (path pointer : Pointer) (buf_len : ℕ)
    → let o = read_from_mmap d path pointer buf_len in
      let works = are_given path pointer buf_len && not (ltb_ℤ d.opened (pos 0)) && d.is_mapped in
      (eqb_ℤ o.code (pos 0) ≡ works)
      × (ltb_ℤ o.code (pos 0) ≡ not works)
      × (left_open 0 o.calls ≡ 0)
      × (d.is_mapped ≡ true → left_mapped 0 o.calls ≡ 0)
unfolding read_from_mmap refused
mmap_lem d path pointer buf_len = elim (Bool-cases (are_given path pointer buf_len)) [
  | inl given ↦
      rw (checked_lem path pointer buf_len (open_device d (map_device d)), given, read_from_mmap)
        (open_lem d)
  | inr missing ↦
      rw (checked_lem path pointer buf_len (open_device d (map_device d)), missing, read_from_mmap)
        (refl, refl, refl, λ e. refl)
]
