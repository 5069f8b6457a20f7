-- ===== src/Socket/Replies.antt =====
-- What the server writes to its client, and where it writes behind its array.
use linux_c_homeworks.Prelude.{
  ℕ, zero, ◌+◌, ◌<◌, ◌≡◌, refl, ap, ◌∙◌, Bool, true, false, Option, none, some, List, [], ◌∷◌, ◌++◌,
  ltb, ◌==◌, ◌&&◌, ◌||◌, not, length, take, if◌then◌else◌, arith, Bool-cases, inl, inr,
  length-append,
}
use linux_c_homeworks.Prelude.Int.{pos, ltb_ℤ}
use linux_c_homeworks.Lines.{Stop, newline, form_msg, buf_size}
use linux_c_homeworks.Lines.Stores.{lay, length-lay}
use linux_c_homeworks.Lines.Buffers.{before_newline, after_newline, length-before_newline}
use linux_c_homeworks.Lines.Kept.{form_msg_lem}
use linux_c_homeworks.Shmem.{c_string}
use linux_c_homeworks.Socket.{
  is_quit, Session, lost, with_reply, serve, Answers, failed, accept_client, bind_socket, main,
}

-- Whether a message makes the server ask for a reply.
abbrev pub is_answered : List ℕ → Bool
is_answered message = not ((length message == 0) || is_quit (c_string message))

-- Whether every line that the user types as a reply has fewer than 255 characters.
unfoldable pub lines_fit : List (List ℕ) → List ℕ → Bool
lines_fit [] input = true
lines_fit (message ∷ messages) input =
    let rest = lines_fit messages (after_newline 255 input) in
    if is_answered message then not (length (before_newline 255 input) == 255) && rest else true

-- The replies: the lines typed, each with its newline.
unfoldable pub replies_typed : List (List ℕ) → List ℕ → List (List ℕ)
replies_typed [] input = []
replies_typed (message ∷ messages) input =
    let rest = replies_typed messages (after_newline 255 input) in
    if is_answered message then (before_newline 255 input ++ (newline ∷ [])) ∷ rest else []

take-lay :
    (xs buf : List ℕ)
    → length xs < length buf
    → take (length xs) (lay zero (xs ++ (0 ∷ [])) buf) ≡ xs
take-lay [] buf h = refl
take-lay (x ∷ xs) [] h = absurd (omega arith)
take-lay (x ∷ xs) (b ∷ buf) h = ap (λ ys. x ∷ ys) (take-lay xs buf (omega arith))

module _ (message input buf : List ℕ) where
  -- The state after FORM_MSG in an array of 256 characters, where the line fits.
  reply_lem :
      length buf ≡ buf_size
      → (length (before_newline 255 input) == 255) ≡ false
      → (s : Stop) × (form_msg (lay zero (message ++ (0 ∷ [])) buf) input ≡ some s)
        × (take s.index s.buffer ≡ before_newline 255 input ++ (newline ∷ []))
        × (s.input ≡ after_newline 255 input)
        × (length s.buffer ≡ buf_size)
  reply_lem size fits =
      let line = before_newline 255 input ++ (newline ∷ []) in
      let read = lay zero (message ++ (0 ∷ [])) buf in
      let kept : length read ≡ buf_size = length-lay zero (message ++ (0 ∷ [])) buf ∙ size in
      let n : length line ≡ length (before_newline 255 input) + 1 =
        length-append (before_newline 255 input) (newline ∷ []) in
      (
        record {
          index = length (before_newline 255 input) + 1;
          buffer = lay zero (line ++ (0 ∷ [])) read;
          input = after_newline 255 input;
        },
        rw (form_msg_lem read input kept, fits) refl,
        rw n at (take-lay line read (ground (arith, n, kept, length-before_newline 255 input))),
        refl,
        length-lay zero (line ++ (0 ∷ [])) read ∙ kept,
      )

-- The loop ends with these replies.
abbrev pub Replies : List (List ℕ) → Option Session → Type 0
Replies replies o = (s : Session) × (o ≡ some s) × (s.replies ≡ replies)

goes_on :
    (message : List ℕ) (messages : List (List ℕ)) (input buf : List ℕ)
    → length buf ≡ buf_size
    → (length message == 0) ≡ false
    → is_quit (c_string message) ≡ false
    → (length (before_newline 255 input) == 255) ≡ false
    → (next : List ℕ) × (length next ≡ buf_size)
      × (serve (message ∷ messages) input buf
          ≡ with_reply
              (c_string message)
              (before_newline 255 input ++ (newline ∷ []))
              (serve messages (after_newline 255 input) next))
unfolding serve
goes_on message messages input buf size there stays fits =
    let (s, formed, reply, left, kept) = reply_lem message input buf size fits in
    (s.buffer, kept, rw (there, stays, formed, reply, left, serve) refl)

overflows :
    (message : List ℕ) (messages : List (List ℕ)) (input buf : List ℕ)
    → length buf ≡ buf_size
    → (length message == 0) ≡ false
    → is_quit (c_string message) ≡ false
    → (length (before_newline 255 input) == 255) ≡ true
    → serve (message ∷ messages) input buf ≡ none
unfolding serve
overflows message messages input buf size there stays full =
    let read = lay zero (message ++ (0 ∷ [])) buf in
    let kept : length read ≡ buf_size = length-lay zero (message ++ (0 ∷ [])) buf ∙ size in
    let past : form_msg read input ≡ none = rw (form_msg_lem read input kept, full) refl in
    rw (there, stays, past, serve) refl

stops :
    (message : List ℕ) (messages : List (List ℕ)) (input buf : List ℕ)
    → is_answered message ≡ false
    → Replies [] (serve (message ∷ messages) input buf)
unfolding serve
stops message messages input buf h = elim (Bool-cases (length message == 0)) [
  | inl gone ↦ (lost, rw (gone, serve) refl, refl)
  | inr there ↦
      let quits : is_quit (c_string message) ≡ true = ground arith in
      (
        record { shown = c_string message ∷ []; replies = []; is_lost = false },
        rw (there, quits, serve) refl,
        refl,
      )
]

replied :
    (text reply : List ℕ) (replies : List (List ℕ)) (o : Option Session)
    → Replies replies o
    → Replies (reply ∷ replies) (with_reply text reply o)
replied text reply replies o (s, ends, same) = (
  record s { shown = text ∷ s.shown; replies = reply ∷ s.replies },
  rw ends refl,
  ap (λ rs. reply ∷ rs) same,
)

-- Where every line that the user types as a reply has fewer than 255 characters, the loop ends and has
-- written, for each message until the client sends "quit" or is gone, the line typed with its newline;
-- where one is longer, the array is written past its end.
pub serve_lem :
    (messages : List (List ℕ)) (input buf : List ℕ)
    → length buf ≡ buf_size
    → (lines_fit messages input ≡ true
        → Replies (replies_typed messages input) (serve messages input buf))
      × (lines_fit messages input ≡ false → serve messages input buf ≡ none)
unfolding lines_fit replies_typed serve
serve_lem [] input buf size = (λ h. (lost, refl, refl), λ h. absurd (cc h))
serve_lem (message ∷ messages) input buf size = elim (Bool-cases (is_answered message)) [
  | inr last ↦
      rw (last, lines_fit, replies_typed)
        (λ h. stops message messages input buf last, λ h. absurd (cc h))
  | inl more ↦
      let there : (length message == 0) ≡ false = ground arith in
      let stays : is_quit (c_string message) ≡ false = ground arith in
      elim (Bool-cases (length (before_newline 255 input) == 255)) [
        | inl full ↦
            rw (more, full, lines_fit)
              (λ h. absurd (cc h), λ h. overflows message messages input buf size there stays full)
        | inr fits ↦
            let (next, kept, runs) = goes_on message messages input buf size there stays fits in
            let (all_fit, one_long) = serve_lem messages (after_newline 255 input) next kept in
            rw (more, fits, runs, lines_fit, replies_typed)
              (
                λ h.
                    replied (c_string message) (before_newline 255 input ++ (newline ∷ []))
                      (replies_typed messages (after_newline 255 input)) _ (all_fit h),
                λ h. rw (one_long h) refl,
              )
      ]
]

abbrev pub is_up : ℕ → Answers → Bool
is_up argc k = not (ltb argc 2) && not (ltb_ℤ k.socket (pos 0)) && not (ltb_ℤ k.bind (pos 0))

-- The exit code is 0 exactly when there is a port and socket, bind and accept work; a socket stays open
-- exactly when accept is the one that fails.
pub socket_main_lem :
    (argc : ℕ) (k : Answers) (messages : List (List ℕ)) (input buf : List ℕ)
    → ((main argc k messages input buf).status
        ≡ (if is_up argc k && not (ltb_ℤ k.accept (pos 0)) then 0 else 1))
      × ((main argc k messages input buf).left_open
          ≡ (if is_up argc k && ltb_ℤ k.accept (pos 0) then 1 else 0))
unfolding main bind_socket accept_client failed
socket_main_lem argc k messages input buf = (ground arith, ground arith)
