-- ===== src/Queries/Filling.antt =====
-- The loop of query_vcatstr, on a buffer with room.
use mathlib.Core.List.{append_assoc}
use mathlib.Core.Path.{subst}
use rubsd.Prelude.{
  ℕ, zero, suc, ◌+◌, ◌-◌, ◌≤◌, ◌<◌, ◌≡◌, refl, ◌∙◌, sym, ap, inl, inr, true, false, ◌==◌, arith,
  List, [], ◌∷◌, ◌++◌, Option, none, some, length, length-append, drop, get_elem?, get_or,
  Bool-cases, Option-cases,
}
use rubsd.Prelude.Run.{Run, Yields, Yields-bind, Yields-weaken, ◌>>=◌}
use rubsd.Queries.{
  dollar, is_place, to_dollar, put_piece, put_text, put_arg, vcat_loop, query_vcatstr,
}
use rubsd.Queries.Expanding.{before, expand, Holds, put_piece_lem, put_text_lem}

before-before :
    (c : ℕ) (piece : List ℕ) (o : Option (List ℕ))
    → before (c ∷ []) (before piece o) ≡ before (c ∷ piece) o
before-before c piece none = refl
before-before c piece (some s) = refl

before_some :
    (a : List ℕ) (o : Option (List ℕ)) (out : List ℕ)
    → before a o ≡ some out
    → (s : List ℕ) × (o ≡ some s) × (out ≡ a ++ s)
before_some a none out e = absurd cc
before_some a (some s) out e = (s, refl, cc)

expand-byte :
    (args : List (List ℕ)) (c : ℕ) (s : List ℕ)
    → (c == dollar) ≡ false
    → expand args (c ∷ s) ≡ before (c ∷ []) (expand args s)
expand-byte args c [] e = refl
expand-byte args c (x ∷ s) e = rw (expand, e) refl

expand-other :
    (args : List (List ℕ)) (x : ℕ) (s : List ℕ)
    → is_place x ≡ false
    → expand args (dollar ∷ x ∷ s) ≡ before (dollar ∷ []) (expand args (x ∷ s))
expand-other args x s other = rw (expand, other) refl

expand-place :
    (args : List (List ℕ)) (x : ℕ) (s piece out : List ℕ)
    → is_place x ≡ true
    → before piece (expand args (dollar ∷ x ∷ s)) ≡ some out
    → (arg : List ℕ) × (get_elem? args (x - 49) ≡ some arg)
      × (before piece (before arg (expand args s)) ≡ some out)
expand-place args x s piece out place = elim (Option-cases (get_elem? args (x - 49))) [
  | inl missing ↦ rw (expand, place, missing) (λ e. absurd cc)
  | inr (arg, given) ↦ rw (expand, place, given) (λ e. (arg, refl, e))
]

-- What a text stands for, by the first '$' in it.
abbrev Expands : List (List ℕ) → List ℕ → List ℕ × Option (List ℕ) → Type 0
Expands args ptr (piece, none) = expand args ptr ≡ some ptr
Expands args ptr (piece, some rest) =
    (expand args ptr ≡ before piece (expand args (dollar ∷ rest))) × (length rest < length ptr)

Expands-byte :
    (args : List (List ℕ)) (c : ℕ) (s : List ℕ) (r : List ℕ × Option (List ℕ))
    → (c == dollar) ≡ false
    → Expands args s r
    → Expands args (c ∷ s) (c ∷ r.0, r.1)
Expands-byte args c s (piece, none) isnt e = expand-byte args c s isnt ∙ ap (before (c ∷ [])) e
Expands-byte args c s (piece, some rest) isnt (e, shorter) = (
  expand-byte args c s isnt
      ∙ (ap (before (c ∷ [])) e ∙ before-before c piece (expand args (dollar ∷ rest))),
  omega arith,
)

before_nothing : (o : Option (List ℕ)) → o ≡ before [] o
before_nothing none = refl
before_nothing (some s) = refl

to_dollar-Expands : (args : List (List ℕ)) (ptr : List ℕ) → Expands args ptr (to_dollar ptr)
unfolding to_dollar
to_dollar-Expands args [] = refl
to_dollar-Expands args (c ∷ s) = elim (Bool-cases (c == dollar)) [
  | inl is ↦
      let same : c ≡ dollar = ground arith in
      rw (to_dollar, is)
        (
          ap (λ x. expand args (x ∷ s)) same ∙ before_nothing (expand args (dollar ∷ s)),
          omega arith,
        )
  | inr isnt ↦
      rw (to_dollar, isnt) (Expands-byte args c s (to_dollar s) isnt (to_dollar-Expands args s))
]

-- The buffer holds a text with its NUL, and the length is that of the text.
pub record Final (full : List ℕ) (r : List ℕ × ℕ) : Type 0 where
  pub tail : List ℕ
  pub bytes : r.0 ≡ full ++ 0 ∷ tail
  pub len : r.1 ≡ length full

module _ (args : List (List ℕ)) (size total : ℕ) (fits : size ≤ total) where
  piece_step :
      (done piece : List ℕ) (r : List ℕ × ℕ)
      → Holds done total r
      → length done + length piece + 2 ≤ size
      → Yields (Holds (done ++ piece) total) (put_piece size r.1 piece r.0)
  piece_step done piece r h room =
      rw (h.bytes, h.len) (put_piece_lem size total done piece h.rest h.size room fits)

  text_step :
      (done text : List ℕ) (r : List ℕ × ℕ)
      → Holds done total r
      → length done + length text + 1 ≤ size
      → Yields
          (λ b. Holds (done ++ text) total b × Final (done ++ text) b)
          (put_text size r.1 text r.0)
  text_step done text r h room =
      rw (h.bytes, h.len)
        (Yields-weaken (put_text_lem size total done text h.rest h.size room fits)
          (λ b (held, (tail, bytes)).
            (held, record { tail = tail; bytes = bytes; len = held.len })))

  -- What the loop does with a pointer, as the next rounds need it.
  abbrev Fills : ℕ → Type 0
  Fills fuel =
      (ptr done out : List ℕ) (r : List ℕ × ℕ)
      → expand args ptr ≡ some out
      → length ptr < fuel
      → Holds done total r
      → length done + length out + 2 ≤ size
      → Yields (Final (done ++ out)) (vcat_loop fuel args size ptr r.1 r.0)

  -- A round of the loop, behind strchr.
  abbrev round : ℕ → List ℕ → List ℕ × ℕ → List ℕ × Option (List ℕ) → Run (List ℕ × ℕ)
  round fuel ptr r (piece, found) = elim found [
    | none ↦ put_text size r.1 ptr r.0
    | some rest ↦ elim (is_place (get_or rest 0 0)) [
      | true ↦ put_arg args size (get_or rest 0 0) r.1 piece r.0 >>= λ b.
          vcat_loop fuel args size (drop 1 rest) b.1 b.0
      | false ↦ put_piece size r.1 (piece ++ dollar ∷ []) r.0 >>= λ b.
          vcat_loop fuel args size rest b.1 b.0
    ]
  ]

  -- A round for a byte that is not a place behind the '$', and one for a place.
  byte_round :
      (fuel : ℕ) (rest piece done out : List ℕ) (r : List ℕ × ℕ)
      → Fills fuel
      → before piece (before (dollar ∷ []) (expand args rest)) ≡ some out
      → length rest < fuel
      → Holds done total r
      → length done + length out + 2 ≤ size
      → Yields (Final (done ++ out)) (
          put_piece size r.1 (piece ++ dollar ∷ []) r.0 >>= λ b.
          vcat_loop fuel args size rest b.1 b.0)
  byte_round fuel rest piece done out r ih e below h room =
      let (s1, e1, split1) = before_some piece (before (dollar ∷ []) (expand args rest)) out e in
      let (s2, e2, split2) = before_some (dollar ∷ []) (expand args rest) s1 e1 in
      let n1 = ap length split1 ∙ length-append piece s1 in
      let n2 = ap length split2 in
      let n3 = length-append piece (dollar ∷ []) in
      let new = piece ++ dollar ∷ [] in
      let whole : (done ++ new) ++ s2 ≡ done ++ out =
        append_assoc done new s2
        ∙ ap (done ++◌)
            (append_assoc piece (dollar ∷ []) s2 ∙ sym (split1 ∙ ap (piece ++◌) split2)) in
      Yields-bind (piece_step done new r h (omega arith)) (λ b held.
        Yields-weaken
          (ih rest (done ++ new) s2 b e2 below held (omega (arith, length-append done new)))
          (λ f final. subst (λ full. Final full f) whole final))

  place_round :
      (fuel x : ℕ) (rest piece done out arg : List ℕ) (r : List ℕ × ℕ)
      → Fills fuel
      → get_elem? args (x - 49) ≡ some arg
      → before piece (before arg (expand args rest)) ≡ some out
      → length rest < fuel
      → Holds done total r
      → length done + length out + 2 ≤ size
      → Yields
          (Final (done ++ out))
          (put_arg args size x r.1 piece r.0 >>= λ b. vcat_loop fuel args size rest b.1 b.0)
  unfolding put_arg
  place_round fuel x rest piece done out arg r ih given e below h room =
      let (s1, e1, split1) = before_some piece (before arg (expand args rest)) out e in
      let (s2, e2, split2) = before_some arg (expand args rest) s1 e1 in
      let n1 = ap length split1 ∙ length-append piece s1 in
      let n2 = ap length split2 ∙ length-append arg s2 in
      let n3 = length-append done piece in
      let whole : ((done ++ piece) ++ arg) ++ s2 ≡ done ++ out =
        append_assoc (done ++ piece) arg s2
        ∙ (append_assoc done piece (arg ++ s2)
            ∙ ap (done ++◌) (sym (split1 ∙ ap (piece ++◌) split2))) in
      rw (put_arg, given)
        (Yields-bind
          (Yields-bind (piece_step done piece r h (omega arith))
            (λ b held. text_step (done ++ piece) arg b held (omega arith)))
          (λ b (held, _).
            Yields-weaken
              (ih rest ((done ++ piece) ++ arg) s2 b e2 below held
                (omega (arith, length-append (done ++ piece) arg)))
              (λ f final. subst (λ full. Final full f) whole final)))

  round_lem :
      (fuel : ℕ) (ptr done out : List ℕ) (r : List ℕ × ℕ) (split : List ℕ × Option (List ℕ))
      → Fills fuel
      → Expands args ptr split
      → expand args ptr ≡ some out
      → length ptr < suc fuel
      → Holds done total r
      → length done + length out + 2 ≤ size
      → Yields (Final (done ++ out)) (round fuel ptr r split)
  round_lem fuel ptr done out r (piece, none) ih is e below h room =
      let same : ptr ≡ out = cc in
      Yields-weaken (text_step done ptr r h (omega (arith, ap length same)))
        (λ b (held, final). subst (λ o. Final (done ++ o) b) same final)
  round_lem fuel ptr done out r (piece, some []) ih (is, shorter) e below h room =
      byte_round fuel [] piece done out r ih (sym is ∙ e) (omega arith) h room
  round_lem fuel ptr done out r (piece, some (x ∷ rest)) ih (is, shorter) e below h room =
      elim (Bool-cases (is_place x)) [
        | inl place ↦
            let (arg, given, filled) = expand-place args x rest piece out place (sym is ∙ e) in
            rw (round, place)
              (place_round fuel x rest piece done out arg r ih given filled (omega arith) h room)
        | inr other ↦
            rw (round, other)
              (byte_round fuel (x ∷ rest) piece done out r ih
                (ap (before piece) (sym (expand-other args x rest other)) ∙ (sym is ∙ e))
                (omega arith) h room)
      ]

  vcat_loop_lem : (fuel : ℕ) → Fills fuel
  unfolding vcat_loop
  vcat_loop_lem zero ptr done out r e below h room = absurd (omega arith)
  vcat_loop_lem (suc fuel) ptr done out r e below h room =
      round_lem fuel ptr done out r (to_dollar ptr) (vcat_loop_lem fuel)
        (to_dollar-Expands args ptr) e below h room

-- On a buffer of at least `size` bytes, if the arguments that the text names are all there and the text
-- that it stands for has two bytes less than `size` or fewer, query_vcatstr comes back without an access
-- outside the buffer. The buffer holds that text with a NUL behind it, and the result is its length.
pub query_vcatstr_lem :
    (args : List (List ℕ)) (size : ℕ) (buf str out : List ℕ)
    → expand args str ≡ some out
    → length out + 2 ≤ size
    → size ≤ length buf
    → Yields (Final out) (query_vcatstr buf size str args)
unfolding query_vcatstr
query_vcatstr_lem args size buf str out e room fits =
    vcat_loop_lem args size (length buf) fits (length str + 1) str [] out (buf, 0) e (omega arith)
      (record { rest = buf; bytes = refl; size = omega arith; len = refl }) (omega arith)
