-- ===== src/Transfer/Read.antt =====
-- What node_read of homework6 does, and that reading again and again gives the whole message.
use linux_c_homeworks.Prelude.{
  ℕ, zero, suc, ◌+◌, ◌-◌, ◌≤◌, ◌<◌, ◌^◌, ◌≡◌, ap, ◌∙◌, true, false, Option, some, none, List, [],
  ◌∷◌, ◌++◌, arith, length, leb, if◌then◌else◌, Bool-cases, inl, inr, take, drop, take-add,
  drop-drop, length-take-drop,
}
use linux_c_homeworks.Prelude.Int.{ℤ, pos, leb_ℤ}
use linux_c_homeworks.Transfer.{clip, strlen, rand_read, rand_read_at}
use linux_c_homeworks.Transfer.Copy.{
  clipped, clip_lem, i32_small, i64_small, rounds_small, copy_out_lem,
}

pub strlen-le : (xs : List ℕ) → strlen xs ≤ length xs
unfolding strlen
strlen-le [] = omega arith
strlen-le (x ∷ xs) = ground (arith, strlen-le xs)

-- The message: the bytes of the buffer before the first 0.
abbrev pub message : List ℕ → List ℕ
message buffer = take (strlen buffer) buffer

rand_read_eq :
    (buffer : List ℕ) (n offset : ℕ)
    → offset < 2 ^ 31
    → rand_read buffer n offset
      ≡ rand_read_at (pos offset) (clip (pos offset) (strlen buffer) n) buffer offset
unfolding rand_read
rand_read_eq buffer n offset h = rw (i32_small offset h)

rand_read_past :
    (buffer : List ℕ) (n offset : ℕ)
    → offset < 2 ^ 31
    → leb (strlen buffer) offset ≡ true
    → rand_read buffer n offset ≡ some (pos 0, [], offset)
unfolding rand_read_at
rand_read_past buffer n offset h past =
    let past' : leb_ℤ (pos (strlen buffer)) (pos offset) ≡ true = ground arith in
    rand_read_eq buffer n offset h ∙ rw past'

rand_read_at_lem :
    (buffer : List ℕ) (offset len : ℕ)
    → leb (strlen buffer) offset ≡ false
    → len < 2 ^ 63
    → offset + len ≤ length buffer
    → rand_read_at (pos offset) len buffer offset
      ≡ some (pos len, take len (drop offset buffer), offset + len)
unfolding rand_read_at
rand_read_at_lem buffer offset len inside small fits =
    let inside' : leb_ℤ (pos (strlen buffer)) (pos offset) ≡ false = ground arith in
    rw (
      inside',
      rounds_small len small,
      copy_out_lem len offset buffer fits,
      rand_read_at,
      i64_small len small,
    )

module _ (buffer : List ℕ) (n : ℕ) (size : length buffer < 2 ^ 31) (small : n < 2 ^ 63) where
  -- node_read of homework6 at any offset that an int can hold: at the end of the message it returns
  -- 0, and before it the bytes of the message from the offset on, at most n, and the offset moves on
  -- by as many.
  pub rand_read_lem :
      (offset : ℕ)
      → offset < 2 ^ 31
      → rand_read buffer n offset ≡ (
          if leb (strlen buffer) offset
          then some (pos 0, [], offset)
          else some (
            pos (clipped offset (strlen buffer) n),
            take (clipped offset (strlen buffer) n) (drop offset buffer),
            offset + clipped offset (strlen buffer) n,
          ))
  rand_read_lem offset h = elim (Bool-cases (leb (strlen buffer) offset)) [
    | inl past ↦ rw past (rand_read_past buffer n offset h past)
    | inr inside ↦ rw inside (
        rand_read_eq buffer n offset h
        ∙ ap (λ len. rand_read_at (pos offset) len buffer offset)
            (clip_lem offset (strlen buffer) n (ground arith) (omega (arith, strlen-le buffer))
              small)
        ∙ rand_read_at_lem buffer offset (clipped offset (strlen buffer) n) inside (ground arith)
            (ground (arith, strlen-le buffer)))
  ]

-- What a program reads that calls read with room for n bytes until it returns 0.
pub read_all : ℕ → List ℕ → ℕ → ℕ → Option (List ℕ)
read_all zero buffer n offset = none
read_all (suc fuel) buffer n offset = elim (rand_read buffer n offset) [
  | none ↦ none
  | some (code, [], offset') ↦ some []
  | some (code, b ∷ bytes, offset') ↦ elim (read_all fuel buffer n offset') [
    | none ↦ none
    | some rest ↦ some ((b ∷ bytes) ++ rest)
  ]
]

read_all_more :
    (fuel : ℕ) (buffer : List ℕ) (n offset : ℕ) (code : ℤ) (bytes : List ℕ) (offset' : ℕ)
    (rest : List ℕ)
    → rand_read buffer n offset ≡ some (code, bytes, offset')
    → 0 < length bytes
    → read_all fuel buffer n offset' ≡ some rest
    → read_all (suc fuel) buffer n offset ≡ some (bytes ++ rest)
unfolding read_all
read_all_more fuel buffer n offset code [] offset' rest run h later = absurd (omega arith)
read_all_more fuel buffer n offset code (b ∷ bytes) offset' rest run h later =
    rw (run, read_all, later)

join :
    (m o len : ℕ) (xs : List ℕ)
    → o + len ≤ m
    → take len (drop o xs) ++ take (m - (o + len)) (drop (o + len) xs) ≡ take (m - o) (drop o xs)
join m o len xs h =
    let e : m - o ≡ len + (m - (o + len)) = omega arith in
    rw (e, take-add len (m - (o + len)) (drop o xs), drop-drop o len xs)

read_all_end :
    (fuel : ℕ) (buffer : List ℕ) (n offset : ℕ)
    → rand_read buffer n offset ≡ some (pos 0, [], offset)
    → read_all (suc fuel) buffer n offset ≡ some []
unfolding read_all
read_all_end fuel buffer n offset run = rw (run, read_all)

read_all_from :
    (fuel : ℕ) (buffer : List ℕ) (n offset : ℕ)
    → length buffer < 2 ^ 31
    → 0 < n
    → n < 2 ^ 63
    → offset ≤ strlen buffer
    → strlen buffer < offset + fuel
    → read_all fuel buffer n offset ≡ some (take (strlen buffer - offset) (drop offset buffer))
read_all_from zero buffer n offset size some_bytes small h f = absurd (omega arith)
read_all_from (suc fuel) buffer n offset size some_bytes small h f =
    elim (Bool-cases (leb (strlen buffer) offset)) [
      | inl past ↦
          read_all_end fuel buffer n offset
            (rand_read_past buffer n offset (omega (arith, strlen-le buffer)) past)
          ∙ (let done : strlen buffer - offset ≡ 0 = ground arith in rw done)
      | inr inside ↦
          let len = clipped offset (strlen buffer) n in
          let fits : offset + len ≤ strlen buffer = ground arith in
          let forward : 0 < len = ground arith in
          read_all_more fuel buffer n offset (pos len) (take len (drop offset buffer))
            (offset + len) (take (strlen buffer - (offset + len)) (drop (offset + len) buffer))
            (rw inside at
              (rand_read_lem buffer n size small offset (omega (arith, strlen-le buffer))))
            (omega (
              arith,
              forward,
              length-take-drop len offset buffer (omega (arith, fits, strlen-le buffer)),
            ))
            (read_all_from fuel buffer n (offset + len) size some_bytes small fits
              (omega (arith, forward)))
          ∙ ap some (join (strlen buffer) offset len buffer fits)
    ]

-- Reading again and again, with room for n bytes, n not 0, gives the message in r_buffer, whole and
-- in order; as many reads as the message has bytes, and one, are enough.
pub read_all_lem :
    (buffer : List ℕ) (n : ℕ)
    → length buffer < 2 ^ 31
    → 0 < n
    → n < 2 ^ 63
    → read_all (strlen buffer + 1) buffer n 0 ≡ some (message buffer)
read_all_lem buffer n size some_bytes small =
    let e : strlen buffer - 0 ≡ strlen buffer = omega arith in
    rw e at (
      read_all_from (strlen buffer + 1) buffer n 0 size some_bytes small (omega arith)
        (omega arith))
