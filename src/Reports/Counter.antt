-- ===== src/Reports/Counter.antt =====
-- What node_read of keyboard_irq gives to the program.
use linux_c_homeworks.Prelude.{
  ℕ, zero, suc, ◌+◌, ◌%◌, ◌^◌, ◌<◌, ◌≡◌, refl, true, false, some, List, [], ltb, ◌==◌, arith,
  length,
}
use linux_c_homeworks.Prelude.Int.{ℤ, pos}
use linux_c_homeworks.Prelude.Words.{i32}
use linux_c_homeworks.Reports.{keyboard_read, kb_int, interrupts}

-- node_read of keyboard_irq with a text that fits in its buffer, whatever length the program asks
-- for: at the offset 0 the program gets the whole text and its length, and the next call, at the
-- offset that this one leaves, returns 0 and gives nothing.
pub keyboard_read_lem :
    (text : List ℕ) (len len' : ℕ)
    → 0 < length text
    → length text < 1024
    → (keyboard_read text false len 0
        ≡ some (record { code = pos (length text); bytes = text; offset = 0 + length text }))
      × (keyboard_read text false len' (0 + length text)
          ≡ some (record { code = pos 0; bytes = []; offset = 0 + length text }))
unfolding keyboard_read
keyboard_read_lem text len len' some_text fits =
    let e₁ : (length text == 0) ≡ false = ground arith in
    let e₂ : ltb 1024 (length text) ≡ false = ground arith in
    let e₃ : ltb (length text) 1024 ≡ true = ground arith in
    let e₄ : (0 + length text == 0) ≡ false = ground arith in (rw (e₁, e₂, e₃) refl, rw (e₄) refl)

interrupts_lem : (n : ℕ) → interrupts n ≡ n % 2 ^ 32
unfolding interrupts kb_int
interrupts_lem zero = omega arith
interrupts_lem (suc n) = rw (interrupts_lem n) (omega arith)

-- After n interrupts a program that reads from the offset 0 gets the text of the int that n comes to,
-- when that text has at least one byte and fits in the buffer.
pub interrupts_read_lem :
    (text : ℤ → List ℕ) (n len : ℕ)
    → 0 < length (text (i32 (n % 2 ^ 32)))
    → length (text (i32 (n % 2 ^ 32))) < 1024
    → keyboard_read (text (i32 (interrupts n))) false len 0
      ≡ some (record {
        code = pos (length (text (i32 (n % 2 ^ 32))));
        bytes = text (i32 (n % 2 ^ 32));
        offset = 0 + length (text (i32 (n % 2 ^ 32)));
      })
interrupts_read_lem text n len some_text fits =
    rw (interrupts_lem n) ((keyboard_read_lem (text (i32 (n % 2 ^ 32))) len len some_text fits).0)
