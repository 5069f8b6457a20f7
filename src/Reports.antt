-- ===== src/Reports.antt =====
-- The files that a program reads to see the state of a kernel module: node_read of
-- linux_kernel_development/homework9/module_interface/module_interface_read.c and of
-- homework12/keyboard_irq/keyboard_irq_read.c. Each formats a text into a buffer on the stack and
-- copies it to the program. The text that snprintf makes of a number is a parameter; a result `none`
-- is an access outside a buffer of the kernel.
pub mod Numbers
pub mod Counter
mod Tests
use linux_c_homeworks.Prelude.{
  ℕ, zero, suc, ◌+◌, ◌-◌, ◌*◌, ◌%◌, ◌^◌, Bool, true, false, Option, none, some, List, [], ◌∷◌, ◌++◌,
  ltb, leb, ◌==◌, if◌then◌else◌, length, get_elem?, take,
}
use linux_c_homeworks.Prelude.Int.{ℤ, pos, negsuc}
use linux_c_homeworks.Prelude.Words.{u64, i64}

abbrev pub max_buffer_size : ℕ
max_buffer_size = 2040

abbrev pub minus_efault : ℤ
minus_efault = negsuc 13

-- What snprintf leaves of a text in `room` bytes: all of it, or what fits and the end of the string.
abbrev pub snprintf_text : ℕ → List ℕ → List ℕ
snprintf_text room text = if ltb (length text) room then text else take (room - 1) text ++ (0 ∷ [])

-- What a call of node_read comes to: its code, the bytes that copy_to_user gives to the program, and
-- the offset after it.
pub record Read : Type 0 where
  pub code : ℤ
  pub bytes : List ℕ
  pub offset : ℕ

-- `line z` is what "%d\n" makes of z; snprintf does not fail, and returns its length.
module _ (line : ℤ → List ℕ) where
  -- The loop, with `rounds` values of i left; `text` is what stands in tmp_buffer before `copied`.
  unfoldable pub format_loop : List ℤ → ℕ → ℕ → ℕ → List ℕ → Option (ℕ × List ℕ)
  format_loop nums_array zero i copied text = some (copied, text)
  format_loop nums_array (suc rounds) i copied text =
      if ltb copied max_buffer_size
      then elim (get_elem? nums_array i) [
        | none ↦ none
        | some num ↦
            if length (line num) == 0
            then some (copied, text)
            else format_loop nums_array rounds (i + 1) (copied + length (line num))
                (text ++ snprintf_text (max_buffer_size - copied) (line num))
      ]
      else some (copied, text)

  -- The rounds of the loop, whose counter is an `int`.
  abbrev pub amount_rounds : ℤ → ℕ
  amount_rounds (pos n) = n
  amount_rounds (negsuc n) = 0

  -- After the loop; `fault` says whether copy_to_user fails.
  unfoldable pub copy_text : Bool → ℕ → ℕ → Option (ℕ × List ℕ) → Option Read
  copy_text fault len offset none = none
  copy_text fault len offset (some (copied, text)) =
      if copied == 0
      then some (record { code = i64 len; bytes = []; offset = offset })
      else if ltb max_buffer_size copied
      then none
      else if fault
      then some (record { code = minus_efault; bytes = []; offset = offset })
      else some (record { code = i64 len; bytes = text; offset = offset + copied })

  -- node_read of module_interface. The mutex is held all the time.
  pub interface_read : Bool → Option (List ℤ) → ℤ → ℕ → ℕ → Option Read
  interface_read fault none rand_nums_amount len offset =
      some (record { code = pos 0; bytes = []; offset = offset })
  interface_read fault (some nums_array) rand_nums_amount len offset =
      if leb (u64 rand_nums_amount * 4 % 2 ^ 64) offset
      then some (record { code = pos 0; bytes = []; offset = offset })
      else copy_text fault len offset
          (format_loop nums_array (amount_rounds rand_nums_amount) 0 0 [])

-- node_read of keyboard_irq; `text` is what "%d keyboard IRQs\n" makes of irq_counter.
pub keyboard_read : List ℕ → Bool → ℕ → ℕ → Option Read
keyboard_read text fault len offset =
    if offset == 0
    then (if length text == 0
        then some (record { code = pos 0; bytes = []; offset = offset })
        else if ltb 1024 (length text)
        then none
        else if fault
        then some (record { code = minus_efault; bytes = []; offset = offset })
        else some (record {
          code = pos (length text);
          bytes = snprintf_text 1024 text;
          offset = offset + length text;
        }))
    else some (record { code = pos 0; bytes = []; offset = offset })

-- kb_int of keyboard_irq_main.c, with irq_counter as a machine word.
pub kb_int : ℕ → ℕ
kb_int irq_counter = (irq_counter + 1) % 2 ^ 32

-- irq_counter after n interrupts.
pub interrupts : ℕ → ℕ
interrupts zero = 0
interrupts (suc n) = kb_int (interrupts n)
