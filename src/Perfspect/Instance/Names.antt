-- ===== src/Perfspect/Instance/Names.antt =====
-- lib/collectors/perfspect/src/perfspect.cpp: which product names `ParseProductName` accepts.
use atlas_system_agent.Base.{
  ℕ, suc, ◌+◌, ◌≡◌, refl, ap, Bool, true, false, some, [], ◌∷◌, ◌++◌, Text, ltb, length, arith, All,
  length-append, ◌∙◌, sym, append_assoc, All-append,
}
use atlas_system_agent.Perfspect.Instance.{
  find_first, is_dot, is_processor, byte_at, parse_product_name,
}

-- A byte that is found behind others that are not it.
find_first-behind :
    (p : ℕ → Bool) (front : Text) (c : ℕ) (s : Text)
    → All (λ x. p x ≡ false) front
    → p c ≡ true
    → find_first p (front ++ c ∷ s) ≡ some (length front)
unfolding find_first
find_first-behind p [] c s none_of e = rw e refl
find_first-behind p (x ∷ front) c s none_of e =
    rw (none_of.0, find_first-behind p front c s none_of.1 e) refl

byte_at-behind : (front : Text) (c : ℕ) (s : Text) → byte_at (front ++ c ∷ s) (length front) ≡ c
byte_at-behind [] c s = refl
byte_at-behind (x ∷ front) c s = byte_at-behind front c s

-- A name of an instance type.
abbrev pub product_name : ℕ → ℕ → Text → ℕ → Text → Text → Text
product_name family generation front processor back size =
    family ∷ generation ∷ (front ++ processor ∷ (back ++ b'.' ∷ size))

abbrev pub NoDots : Text → Type 0
NoDots = All λ c. is_dot c ≡ false

abbrev pub NoProcessors : Text → Type 0
NoProcessors = All λ c. is_processor c ≡ false

processor-no_dot : (p : ℕ) → is_processor p ≡ true → is_dot p ≡ false
processor-no_dot p h = ground arith

find_dot :
    (family generation p : ℕ) (front back size : Text)
    → NoDots (family ∷ generation ∷ front)
    → is_processor p ≡ true
    → NoDots back
    → find_first is_dot (product_name family generation front p back size)
      ≡ some (suc (suc (length front + suc (length back))))
find_dot family generation p front back size (f, (g, no_dots)) processor none_back =
    let before : Text = family ∷ generation ∷ (front ++ p ∷ back) in
    let clear : NoDots before = (
      f,
      (
        g,
        All-append (λ c. is_dot c ≡ false) front (p ∷ back) no_dots
            (processor-no_dot p processor, none_back),
      ),
    ) in
    ap (λ t. find_first is_dot (family ∷ generation ∷ t))
      (sym (append_assoc front (p ∷ back) (b'.' ∷ size)))
    ∙ find_first-behind is_dot before b'.' size clear refl
    ∙ ap (λ n. some (suc (suc n))) (length-append front (p ∷ back))

-- Of a name of a family, a generation, other attributes, the processor's letter and a size behind
-- the first dot, the generation and the processor are returned.
pub parse_product_name-product_name :
    (family generation p : ℕ) (front back size : Text)
    → NoDots (family ∷ generation ∷ front)
    → NoProcessors front
    → is_processor p ≡ true
    → NoDots back
    → parse_product_name (product_name family generation front p back size) ≡ some (generation, p)
unfolding parse_product_name
parse_product_name-product_name family generation p front back size no_dots no_processors processor
      none_back =
    let dot = find_dot family generation p front back size no_dots processor none_back in
    let proc =
      find_first-behind is_processor front p (back ++ b'.' ∷ size) no_processors processor in
    let name = product_name family generation front p back size in
    let long : ltb (length name) 3 ≡ false =
      ground (arith, length-append front (p ∷ (back ++ b'.' ∷ size))) in
    let inside : ltb (length front + 2) (suc (suc (length front + suc (length back)))) ≡ true =
      ground arith in
    let place : length front + 2 ≡ suc (suc (length front)) = omega arith in
    rw (dot, proc, parse_product_name)
      (rw (long, inside)
        (ap (λ c. some (generation, c))
          (ap (byte_at name) place ∙ byte_at-behind front p (back ++ b'.' ∷ size))))
