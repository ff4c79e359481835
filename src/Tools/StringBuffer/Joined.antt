-- ===== src/Tools/StringBuffer/Joined.antt =====
-- What the string buffer prints of a vector.
use mathlib.Core.List.{append-nil, append_assoc}
use dumbo.Base.{
  ℕ, suc, ◌+◌, ◌≡◌, refl, sym, ap, ◌∙◌, List, [], ◌∷◌, ◌++◌, some, length, length-append, get_elem?,
  arith,
}
use dumbo.Base.Faults.{◌>>=◌}
use dumbo.Tools.StringBuffer.{
  open_bracket, close_bracket, comma, space, SBuf, append, separator, print_value, print_from,
  print_vector,
}

module _ {A : Type 0} (print : A → List ℕ) where
  -- The values with a comma and a space between two of them.
  abbrev pub joined : List A → List ℕ
  joined [] = []
  joined (x ∷ []) = print x
  joined (x ∷ y ∷ ys) = print x ++ (comma ∷ space ∷ []) ++ joined (y ∷ ys)

  get_elem?-middle : (xs ys : List A) (y : A) → get_elem? (xs ++ y ∷ ys) (length xs) ≡ some y
  get_elem?-middle [] ys y = refl
  get_elem?-middle (x ∷ xs) ys y = get_elem?-middle xs ys y

  last_separator : (b : SBuf) (c size : ℕ) → size ≡ c + 1 → separator print b c size ≡ b
  unfolding separator
  last_separator b c size e = ground arith

  inner_separator :
      (b : SBuf) (c size more : ℕ)
      → size ≡ c + suc (suc more)
      → separator print b c size ≡ append b (comma ∷ space ∷ [])
  unfolding separator
  inner_separator b c size more e = ground arith

  value_at :
      (values before rest : List A) (y : A) (c : ℕ)
      → values ≡ before ++ y ∷ rest
      → c ≡ length before
      → get_elem? values c ≡ some y
  value_at values before rest y c e q = rw (e, q) (get_elem?-middle before rest y)

  print_step :
      (values : List A) (left c : ℕ) (b : SBuf) (y : A)
      → get_elem? values c ≡ some y
      → print_from print values (suc left) c b
        ≡ print_from print values left
            (c + 1)
            (separator print (print_value print b y) c (length values))
  unfolding print_from
  print_step values left c b y e = rw e

  -- The loop prints the values that remain.
  print_from_lem :
      (values before rest : List A) (c : ℕ) (b : SBuf)
      → values ≡ before ++ rest
      → c ≡ length before
      → print_from print values (length rest) c b ≡ some (append b (joined rest))
  unfolding print_from append print_value
  print_from_lem values before [] c b e q =
      ap (λ s. some (record { str = s })) (sym (append-nil b.str))
  print_from_lem values before (y ∷ []) c b e q =
      print_step values 0 c b y (value_at values before [] y c e q)
      ∙ ap some (
          last_separator (print_value print b y) c (length values)
            (ap length e ∙ omega (arith, length-append before (y ∷ []))))
  print_from_lem values before (y ∷ z ∷ zs) c b e q =
      print_step values (length (z ∷ zs)) c b y (value_at values before (z ∷ zs) y c e q)
      ∙ ap (print_from print values (length (z ∷ zs)) (c + 1)) (
          inner_separator (print_value print b y) c (length values) (length zs)
            (ap length e ∙ omega (arith, length-append before (y ∷ z ∷ zs))))
      ∙ print_from_lem values (before ++ y ∷ []) (z ∷ zs) (c + 1)
          (append (print_value print b y) (comma ∷ space ∷ []))
          (e ∙ sym (append_assoc before (y ∷ []) (z ∷ zs)))
          (omega (arith, length-append before (y ∷ [])))
      ∙ ap (λ s. some (record { str = s }))
          (append_assoc (b.str ++ print y) (comma ∷ space ∷ []) (joined (z ∷ zs))
            ∙ append_assoc b.str (print y) ((comma ∷ space ∷ []) ++ joined (z ∷ zs))
            ∙ ap (λ s. b.str ++ s)
                (sym (append_assoc (print y) (comma ∷ space ∷ []) (joined (z ∷ zs)))))

  -- A vector is printed behind what the buffer holds, as its values in brackets with a comma and a
  -- space between two of them; no access is out of range.
  pub print_vector_lem :
      (b : SBuf) (values : List A)
      → print_vector print b values
        ≡ some (record { str = b.str ++ open_bracket ∷ [] ++ joined values ++ close_bracket ∷ [] })
  unfolding print_vector append
  print_vector_lem b values =
      ap (λ r. r >>= λ b'. some (append b' (close_bracket ∷ [])))
        (print_from_lem values [] values 0 (append b (open_bracket ∷ [])) refl refl)
