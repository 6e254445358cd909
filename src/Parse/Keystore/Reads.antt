-- ===== src/Parse/Keystore/Reads.antt =====
-- What the reader's operations read from bytes that were written for them.
-- A writer puts its bytes before those that follow.
use dtp_discovery_agent.Common.{
  ℕ, zero, suc, ◌+◌, ◌-◌, ◌≡◌, refl, sym, ap, ◌∙◌, false, none, some, List, [], ◌∷◌, ◌++◌, arith,
  ltb, length, take, drop, length-append, ◌/◌, ◌%◌,
}
use native.Mathlib.Numerals.{unary_clauses}
use dtp_discovery_agent.Parse.Keystore.{Reader, remaining, take_bytes, big_endian, u16, u32}

abbrev pub put2 : ℕ → List ℕ → List ℕ
put2 n post = n / 256 ∷ n % 256 ∷ post

abbrev pub put4 : ℕ → List ℕ → List ℕ
put4 n post = n / 16777216 ∷ n / 65536 % 256 ∷ n / 256 % 256 ∷ n % 256 ∷ post

take-append : (xs post : List ℕ) → take (length xs) (xs ++ post) ≡ xs
take-append [] post = refl
take-append (x ∷ xs) post = ap (λ t. x ∷ t) (take-append xs post)

drop-append : (xs post : List ℕ) → drop (length xs) (xs ++ post) ≡ post
drop-append [] post = refl
drop-append (x ∷ xs) post = drop-append xs post

drop-drop : (m n : ℕ) (xs : List ℕ) → drop n (drop m xs) ≡ drop (m + n) xs
drop-drop zero n xs = let e : n ≡ 0 + n = omega arith in ap (λ k. drop k xs) e
drop-drop (suc m) zero [] = simp unary_clauses refl
drop-drop (suc m) (suc n) [] = simp unary_clauses refl
drop-drop (suc m) n (x ∷ xs) =
    let e : suc (m + n) ≡ suc m + n = omega arith in drop-drop m n xs ∙ ap (λ k. drop k (x ∷ xs)) e

-- The reader has met no error, and these bytes are left.
pub record IsReady (r : Reader) (post : List ℕ) : Type 0 where
  pub no_error : r.err ≡ none
  pub left : drop r.pos r.data_bytes ≡ post
  pub whole : r.pos + length post ≡ length r.data_bytes

pub take_bytes-IsReady :
    (xs post : List ℕ) (r : Reader)
    → IsReady r (xs ++ post)
    → (r' : Reader) × ((take_bytes (length xs) r ≡ (some xs, r'))
        × (IsReady r' post × (r'.data_bytes ≡ r.data_bytes)))
unfolding take_bytes remaining
take_bytes-IsReady xs post r h =
    let l = length-append xs post in
    let enough : ltb (length r.data_bytes - r.pos) (length xs) ≡ false =
      ground (arith, l, h.whole) in
    let e : take (length xs) (drop r.pos r.data_bytes) ≡ xs =
      ap (λ t. take (length xs) t) h.left ∙ take-append xs post in
    (
      record r { pos = r.pos + length xs; err = none },
      (
        rw (take_bytes, h.no_error, enough, e)
            (ap (λ err. (some xs, record r { pos = r.pos + length xs; err = err })) h.no_error),
        (
          record {
            no_error = refl;
            left =
                sym (drop-drop r.pos (length xs) r.data_bytes)
                ∙ ap (λ t. drop (length xs) t) h.left
                ∙ drop-append xs post;
            whole = omega (arith, l, h.whole);
          },
          refl,
        ),
      ),
    )

big_endian-put4 : (n : ℕ) → big_endian 0 (put4 n []) ≡ n
big_endian-put4 n = omega arith

big_endian-put2 : (n : ℕ) → big_endian 0 (put2 n []) ≡ n
big_endian-put2 n = omega arith

-- what reading one item leaves
abbrev pub Read : {A : Type 0} → Reader → A × Reader → A → List ℕ → Type 0
Read r result x post =
    (r' : Reader) × ((result ≡ (x, r')) × (IsReady r' post × (r'.data_bytes ≡ r.data_bytes)))

pub u32_ready :
    (n : ℕ) (post : List ℕ) (r : Reader) → IsReady r (put4 n post) → Read r (u32 r) n post
unfolding u32
u32_ready n post r h =
    let (r', (e, ready)) = take_bytes-IsReady (put4 n []) post r h in
    (r', (rw (u32, e, big_endian-put4 n) refl, ready))

pub u16_ready :
    (n : ℕ) (post : List ℕ) (r : Reader) → IsReady r (put2 n post) → Read r (u16 r) n post
unfolding u16
u16_ready n post r h =
    let (r', (e, ready)) = take_bytes-IsReady (put2 n []) post r h in
    (r', (rw (u16, e, big_endian-put2 n) refl, ready))
