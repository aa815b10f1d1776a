-- ===== src/Request/Setters/Maps.antt =====
-- `Set` and `Add` of http.Header and url.Values (request.go), against maps without a
-- representation.
use go_httpclient.Shared.{
  ◌≡◌, refl, ap, ◌∙◌, Bool, true, false, List, [], ◌∷◌, ◌++◌, String, if◌then◌else◌, inl, inr,
  Bool-cases,
}
use text.Mathlib.Text.{◌==◌ as str_eq}
use text.Mathlib.TextEquality.{eq_iff}
use mathlib.Core.Path.{fun_ext}
use go_httpclient.Http.Message.{Header, get}
use go_httpclient.Request.{set_values, add_value}

-- All values of a key.
abbrev pub values : Header → String → List String
values [] j = []
values ((k, vs) ∷ h) j = let rest = values h j in if str_eq k j then vs else rest

-- A map without a representation, and what is written to one.
abbrev pub MultiMap : Type 0
MultiMap = String → List String

pub data Write : Type 0 where
  replaces : String → String → Write
  appends : String → String → Write

abbrev pub write : Write → MultiMap → MultiMap
write (replaces k v) m j = if str_eq k j then v ∷ [] else m j
write (appends k v) m j = if str_eq k j then m j ++ v ∷ [] else m j

abbrev pub write_all : List Write → MultiMap → MultiMap
write_all [] m = m
write_all (x ∷ xs) m = write_all xs (write x m)

pub write_all-append :
    (xs ys : List Write) (m : MultiMap) → write_all (xs ++ ys) m ≡ write_all ys (write_all xs m)
write_all-append [] ys m = refl
write_all-append (x ∷ xs) ys m = write_all-append xs ys (write x m)

pub str_eq_same : (a b : String) → str_eq a b ≡ true → a ≡ b
str_eq_same a b h = (eq_iff a b).0 h

pub str_eq_self : (a : String) → str_eq a a ≡ true
str_eq_self a = (eq_iff a a).1 refl

-- Keys that are not the same do not have a third in common.
str_eq_apart : (a b j : String) → str_eq a b ≡ false → str_eq b j ≡ true → str_eq a j ≡ false
str_eq_apart a b j h k = rw⁻¹ (str_eq_same b j k) h

-- What is written at the key of the first pair, and what is written behind it.
written_here :
    (f : List String → List String) (z y : List String) (b c : Bool)
    → b ≡ c
    → (if c then f z else y) ≡ (if c then f (if b then z else y) else (if b then z else y))
written_here f z y b true h = rw h refl
written_here f z y b false h = rw h refl

written_behind :
    (f : List String → List String) (z y r : List String) (b c : Bool)
    → (c ≡ true → b ≡ false)
    → r ≡ (if c then f y else y)
    → (if b then z else r) ≡ (if c then f (if b then z else y) else (if b then z else y))
written_behind f z y r b true h k = rw (h refl) k
written_behind f z y r true false h k = refl
written_behind f z y r false false h k = k

set_values_at :
    (k v : String) (h : Header) (j : String)
    → values (set_values k v h) j ≡ write (replaces k v) (values h) j
unfolding set_values
set_values_at k v [] j = refl
set_values_at k v ((k', vs) ∷ h) j = elim (Bool-cases (str_eq k' k)) [
  | inl e ↦ rw e (
      written_here (λ old. v ∷ []) vs (values h j) (str_eq k' j) (str_eq k j)
        (ap (λ a. str_eq a j) (str_eq_same k' k e)))
  | inr e ↦ rw e (
      written_behind (λ old. v ∷ []) vs (values h j) (values (set_values k v h) j) (str_eq k' j)
        (str_eq k j) (str_eq_apart k' k j e) (set_values_at k v h j))
]

add_value_at :
    (k v : String) (h : Header) (j : String)
    → values (add_value k v h) j ≡ write (appends k v) (values h) j
unfolding add_value
add_value_at k v [] j = refl
add_value_at k v ((k', vs) ∷ h) j = elim (Bool-cases (str_eq k' k)) [
  | inl e ↦ rw e (
      written_here (λ old. old ++ v ∷ []) vs (values h j) (str_eq k' j) (str_eq k j)
        (ap (λ a. str_eq a j) (str_eq_same k' k e)))
  | inr e ↦ rw e (
      written_behind (λ old. old ++ v ∷ []) vs (values h j) (values (add_value k v h) j)
        (str_eq k' j) (str_eq k j) (str_eq_apart k' k j e) (add_value_at k v h j))
]

-- The lists that stand for maps implement them.
pub set_values-values :
    (k v : String) (h : Header) → values (set_values k v h) ≡ write (replaces k v) (values h)
set_values-values k v h = fun_ext λ j. set_values_at k v h j

pub add_value-values :
    (k v : String) (h : Header) → values (add_value k v h) ≡ write (appends k v) (values h)
add_value-values k v h = fun_ext λ j. add_value_at k v h j

abbrev pub key_of : Write → String
key_of (replaces k v) = k
key_of (appends k v) = k

-- Nothing is written to a key.
abbrev pub Spares : String → List Write → Type 0
Spares j [] = Unit
Spares j (x ∷ xs) = (str_eq (key_of x) j ≡ false) × Spares j xs

write-Spares :
    (x : Write) (m : MultiMap) (j : String) → str_eq (key_of x) j ≡ false → write x m j ≡ m j
write-Spares (replaces k v) m j h = rw h refl
write-Spares (appends k v) m j h = rw h refl

pub write_all-Spares :
    (xs : List Write) (m : MultiMap) (j : String) → Spares j xs → write_all xs m j ≡ m j
write_all-Spares [] m j h = refl
write_all-Spares (x ∷ xs) m j h = write_all-Spares xs (write x m) j h.1 ∙ write-Spares x m j h.0

-- `Get` gives the first value.
abbrev pub first : List String → String
first [] = ""
first (v ∷ vs) = v

pub get-first : (k : String) (h : Header) → get k h ≡ first (values h k)
unfolding get
get-first k [] = refl
get-first k ((k', vs) ∷ h) = elim (Bool-cases (str_eq k' k)) [
  | inl e ↦ rw e (first_lem vs)
  | inr e ↦ rw e (get-first k h)
]
  where
    first_lem : (vs : List String) → (elim vs [ [] ↦ "" | v ∷ rest ↦ v ]) ≡ first vs
    first_lem [] = refl
    first_lem (v ∷ vs) = refl
