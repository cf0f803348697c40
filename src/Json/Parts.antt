-- ===== src/Json/Parts.antt =====
-- Documents made of optional fields and of lists, and the loops of C that print their parts: some put
-- a comma before each element but the first, some behind each but the last.
use mathlib.Core.List.{append_assoc, append-nil}
use uwb_apps.Prelude.{
  ℕ, suc, ◌+◌, ◌≡◌, refl, ap, ◌∙◌, Bool, true, false, List, [], ◌∷◌, ◌++◌, length, all, all-append,
  ltb, ◌==◌, if◌then◌else◌, arith, none, Bool-cases, inl, inr,
}
use uwb_apps.Prelude.Int.{ℤ, pos, negsuc}
use uwb_apps.Text.{Text, dec, dec_ℤ, is_plain}
use uwb_apps.Json.{
  Json, num, str, arr, obj, Items, no_items, item, Fields, no_fields, field, emit, emit_items,
  emit_fields, is_valid, are_valid, fields_valid, quoted,
}

-- `"name":`
abbrev pub name_colon : Text → Text
name_colon k = b'"' ∷ (k ++ b'"' ∷ b':' ∷ [])

-- A field that is there on a condition, and its text behind other fields.
abbrev pub field_if : Bool → Text → Json → Fields → Fields
field_if b k v fs = if b then field k v fs else fs

abbrev pub text_if : Bool → Text → Text
text_if b t = if b then t else []

pub more_fields :
    (b : Bool) (k : Text) (v : Json) (fs : Fields)
    → emit_fields (field_if b k v fs) false
      ≡ text_if b (b',' ∷ (name_colon k ++ emit v)) ++ emit_fields fs false
unfolding emit
more_fields true k v fs = simp append_assoc
more_fields false k v fs = refl

pub emit-obj : (fs : Fields) → emit (obj fs) ≡ b'{' ∷ emit_fields fs true
unfolding emit
emit-obj fs = refl

pub emit-arr : (xs : Items) → emit (arr xs) ≡ b'[' ∷ emit_items xs true
unfolding emit
emit-arr xs = refl

-- A document of fields behind which `t` is printed, where `front` prints some of the fields.
pub emit_obj_rest :
    (fs rest : Fields) (front t : Text)
    → b'{' ∷ emit_fields fs true ≡ front ++ emit_fields rest false
    → emit (obj fs) ++ t ≡ front ++ (emit_fields rest false ++ t)
emit_obj_rest fs rest front t e =
    ap (λ u. u ++ t) (emit-obj fs ∙ e) ∙ append_assoc front (emit_fields rest false) t

pub emit-no_fields : (first : Bool) → emit_fields no_fields first ≡ b'}' ∷ []
unfolding emit
emit-no_fields first = refl

pub is_valid-obj : (fs : Fields) → is_valid (obj fs) ≡ fields_valid fs
unfolding is_valid
is_valid-obj fs = refl

pub is_valid-arr : (xs : Items) → is_valid (arr xs) ≡ are_valid xs
unfolding is_valid
is_valid-arr xs = refl

pub is_valid-str : (t : Text) → is_valid (str t) ≡ all is_plain t
unfolding is_valid
is_valid-str t = refl

pub fields_valid-no_fields : fields_valid no_fields ≡ true
unfolding is_valid
fields_valid-no_fields = refl

pub emit_items-one : (v : Json) → emit_items (item v no_items) true ≡ emit v ++ b']' ∷ []
unfolding emit
emit_items-one v = refl

pub emit_items-more :
    (v w : Json) (xs : Items)
    → emit_items (item v (item w xs)) true ≡ emit v ++ b',' ∷ emit_items (item w xs) true
unfolding emit
emit_items-more v w xs = refl

pub emit-str : (t : Text) → emit (str t) ≡ quoted t
unfolding emit
emit-str t = refl

pub emit-three :
    (u v w : Json)
    → emit (arr (item u (item v (item w no_items))))
      ≡ b'[' ∷ (emit u ++ b',' ∷ (emit v ++ b',' ∷ (emit w ++ b']' ∷ [])))
unfolding emit
emit-three u v w = refl

-- An optional field with a plain name and a valid value keeps the rest as valid as it is.
pub fields_valid-if :
    (b : Bool) (k : Text) (v : Json) (fs : Fields)
    → all is_plain k ≡ true
    → is_valid v ≡ true
    → fields_valid (field_if b k v fs) ≡ fields_valid fs
unfolding is_valid
fields_valid-if true k v fs plain valid = rw (plain, valid) refl
fields_valid-if false k v fs plain valid = refl

-- A whole number.
abbrev pub int : ℤ → Json
int (pos n) = num (record { negative = false; whole = n; places = []; exponent = none })
int (negsuc n) = num (record { negative = true; whole = suc n; places = []; exponent = none })

pub emit-int : (z : ℤ) → emit (int z) ≡ dec_ℤ z
unfolding emit
emit-int (pos n) = append-nil (dec n)
emit-int (negsuc n) = ap (λ t. b'-' ∷ t) (append-nil (dec (suc n)))

pub is_valid-int : (z : ℤ) → is_valid (int z) ≡ true
unfolding is_valid
is_valid-int (pos n) = refl
is_valid-int (negsuc n) = refl

module _ {ℓ} {A : Type ℓ} where
  -- `for (…) printf("%s…", (i==0)?"":",", …)`
  unfoldable pub commas_before : (A → Text) → ℕ → List A → Text
  commas_before f i [] = []
  commas_before f i (x ∷ xs) =
      (if i == 0 then [] else b',' ∷ []) ++ (f x ++ commas_before f (suc i) xs)

  pub all_plain-commas_before :
      (f : A → Text)
      → ((x : A) → all is_plain (f x) ≡ true)
      → (i : ℕ) (xs : List A) → all is_plain (commas_before f i xs) ≡ true
  unfolding commas_before
  all_plain-commas_before f plain i [] = refl
  all_plain-commas_before f plain i (x ∷ xs) =
      let rest = all_plain-commas_before f plain (suc i) xs in
      let both = all-append is_plain (f x) (commas_before f (suc i) xs) in
      elim (Bool-cases (i == 0)) [
        | inl first ↦ rw first (both ∙ rw (plain x, rest) refl)
        | inr later ↦ rw later (both ∙ rw (plain x, rest) refl)
      ]

  -- `for (…) printf("…%s", …, (i+1<n)?",":"")`
  unfoldable pub commas_after : (A → Text) → ℕ → ℕ → List A → Text
  commas_after f n i [] = []
  commas_after f n i (x ∷ xs) =
      f x ++ ((if ltb (i + 1) n then b',' ∷ [] else []) ++ commas_after f n (suc i) xs)

  abbrev pub items : (A → Json) → List A → Items
  items g [] = no_items
  items g (x ∷ xs) = item (g x) (items g xs)

  module _ (f : A → Text) (g : A → Json) (P : A → Bool)
      (same : (x : A) → P x ≡ true → f x ≡ emit (g x)) where
    pub before_loop :
        (i : ℕ) (xs : List A)
        → all P xs ≡ true
        → commas_before f i xs ++ b']' ∷ [] ≡ emit_items (items g xs) (i == 0)
    unfolding commas_before emit
    before_loop i [] h = refl
    before_loop i (x ∷ xs) h =
        let later : (suc i == 0) ≡ false = ground arith in
        append_assoc (if i == 0 then [] else b',' ∷ []) (f x ++ commas_before f (suc i) xs)
          (b']' ∷ [])
        ∙ ap (◌++◌ (if i == 0 then [] else b',' ∷ [])) (
            append_assoc (f x) (commas_before f (suc i) xs) (b']' ∷ [])
            ∙ rw (same x (ground arith))
                (ap (◌++◌ (emit (g x))) (rw later at (before_loop (suc i) xs (ground arith)))))

    pub after_loop :
        (n i : ℕ) (xs : List A)
        → n ≡ i + length xs
        → all P xs ≡ true
        → commas_after f n i xs ++ b']' ∷ [] ≡ emit_items (items g xs) true
    unfolding commas_after emit
    after_loop n i [] e h = refl
    after_loop n i (x ∷ []) e h =
        let last : ltb (i + 1) n ≡ false = ground arith in
        rw (last, same x (ground arith)) (ap (λ t. t ++ b']' ∷ []) (append-nil (emit (g x))))
    after_loop n i (x ∷ y ∷ xs) e h =
        let more : ltb (i + 1) n ≡ true = ground arith in
        let rest = commas_after f n (suc i) (y ∷ xs) in
        rw (more, same x (ground arith))
          (append_assoc (emit (g x)) (b',' ∷ rest) (b']' ∷ [])
            ∙ ap (λ t. emit (g x) ++ b',' ∷ t)
                (after_loop n (suc i) (y ∷ xs) (omega (arith, e)) (ground arith)))

  pub are_valid-items :
      (g : A → Json)
      → ((x : A) → is_valid (g x) ≡ true)
      → (xs : List A) → are_valid (items g xs) ≡ true
  unfolding is_valid
  are_valid-items g valid [] = refl
  are_valid-items g valid (x ∷ xs) = rw (valid x) (are_valid-items g valid xs)

-- Lists whose elements are all printed as they should be.
any_value : {A : Type 0} → A → Bool
any_value x = true

all-any_value : {A : Type 0} (xs : List A) → all any_value xs ≡ true
unfolding any_value
all-any_value [] = refl
all-any_value (x ∷ xs) = all-any_value xs

pub list_lem :
    {A : Type 0} (f : A → Text) (g : A → Json)
    → ((x : A) → f x ≡ emit (g x))
    → (xs : List A) → commas_before f 0 xs ++ b']' ∷ [] ≡ emit_items (items g xs) true
list_lem f g same xs = before_loop f g any_value (λ x h. same x) 0 xs (all-any_value xs)
