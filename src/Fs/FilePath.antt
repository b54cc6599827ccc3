-- ===== src/Fs/FilePath.antt =====
-- The part of `std::path` that the program uses. The components stand innermost first.
use conda_ship.Prelude.{
  Bool, true, false, ◌&&◌, Option, none, some, List, [], ◌∷◌, ◌++◌, Text, codes, Comparable, ◌==◌,
  nat_eq, list_eq, number_eq, if◌then◌else◌, arith, ◌≡◌, ◌↔◌, list_beq_iff, list_beq, ap, ◌≢◌, ◌||◌,
  split_on, split_on-whole, &&-eq-true, not, all, refl, ℕ, length,
}

pub record FilePath : Type 0 where
  pub rooted : Bool
  pub parts : List Text

bool_beq : Bool → Bool → Bool
bool_beq true b = b
bool_beq false b = if b then false else true

unfoldable pub path_beq : FilePath → FilePath → Bool
unfolding bool_beq
path_beq p q = bool_beq p.rooted q.rooted && list_beq p.parts q.parts

pub path_beq_iff : (p q : FilePath) → (path_beq p q ≡ true) ↔ (p ≡ q)
unfolding path_beq
path_beq_iff p q = ground (arith, list_beq_iff p.parts q.parts)

instance abbrev pub path_eq : Comparable FilePath
path_eq = record { test = path_beq; test_iff = path_beq_iff }

-- `Path::join` with one component.
abbrev pub join : FilePath → Text → FilePath
join p name = record p { parts = name ∷ p.parts }

-- The components of a text are pushed; an empty one and a full stop name nothing.
unfoldable pub push_parts : List Text → List Text → List Text
push_parts [] onto = onto
push_parts (part ∷ rest) onto =
    push_parts rest (if (part == []) || (part == codes ".") then onto else part ∷ onto)

unfoldable pub onto_base : FilePath → Text → FilePath
onto_base p [] = p
onto_base p (c ∷ _) = if nat_eq c b'/' then record { rooted = true; parts = [] } else p

-- `Path::join` with any text: one that begins with a slash stands for itself.
unfoldable pub join_text : FilePath → Text → FilePath
unfolding push_parts onto_base
join_text p s =
    let base = onto_base p s in
    record base { parts = push_parts (split_on (λ c. nat_eq c b'/') s) base.parts }

abbrev parent_of : Bool → List Text → Option FilePath
parent_of rooted [] = none
parent_of rooted (_ ∷ rest) = some (record { rooted = rooted; parts = rest })

abbrev pub parent : FilePath → Option FilePath
parent p = parent_of p.rooted p.parts

abbrev name_of : List Text → Option Text
name_of [] = none
name_of (name ∷ _) = if name == codes ".." then none else some name

abbrev pub file_name : FilePath → Option Text
file_name p = name_of p.parts

-- The text before the last full stop.
unfoldable pub before_last_dot : Text → Option Text
before_last_dot [] = none
before_last_dot (c ∷ s) = elim (before_last_dot s) [
  | some before ↦ some (c ∷ before)
  | none ↦ if nat_eq c b'.' then some [] else none
]

unfoldable pub file_stem : Text → Text
unfolding before_last_dot
file_stem name = elim (before_last_dot name) [
  | none ↦ name
  | some [] ↦ name
  | some (c ∷ before) ↦ c ∷ before
]

abbrev extend : List Text → Text → List Text
extend [] ext = []
extend (name ∷ rest) ext =
    if name == codes ".." then name ∷ rest else (file_stem name ++ (b'.' ∷ ext)) ∷ rest

-- `Path::with_extension`, which changes only a path that ends in a name.
unfoldable pub with_extension : FilePath → Text → FilePath
unfolding file_stem
with_extension p ext = record p { parts = extend p.parts ext }

length-extend : (parts : List Text) (ext : Text) → length (extend parts ext) ≡ length parts
length-extend [] ext = refl
length-extend (name ∷ rest) ext = sort (name == codes "..")
  where
    sort :
        (b : Bool)
        → length (if b then name ∷ rest else (file_stem name ++ (b'.' ∷ ext)) ∷ rest)
          ≡ length (name ∷ rest)
    sort true = refl
    sort false = refl

-- A new extension leaves a path on its level.
pub length-with_extension :
    (p : FilePath) (ext : Text) → length (with_extension p ext).parts ≡ length p.parts
unfolding with_extension
length-with_extension p ext = length-extend p.parts ext

-- Two names in one directory are two paths.
pub join-ne : (p : FilePath) (a b : Text) → a ≢ b → join p a ≢ join p b
join-ne p a b h e = h (cc (ap head_part e))
  where
    head_part : FilePath → Text
    head_part q = elim q.parts [ [] ↦ [] | name ∷ _ ↦ name ]

not-true : (b : Bool) → not b ≡ true → b ≡ false
not-true false h = refl
not-true true h = absurd (cc h)

-- A text without a slash that is neither empty nor a full stop is one component.
pub join_text_one :
    (p : FilePath) (c : ℕ) (s : Text)
    → (c ∷ s == codes ".") ≡ false
    → all (λ x. not (nat_eq x b'/')) (c ∷ s) ≡ true
    → join_text p (c ∷ s) ≡ join p (c ∷ s)
unfolding join_text push_parts onto_base list_beq
join_text_one p c s dot plain =
    let whole = split_on-whole (λ x. nat_eq x b'/') (c ∷ s) plain in
    let slash : nat_eq c b'/' ≡ false =
      not-true (nat_eq c b'/')
        (&&-eq-true {a = not (nat_eq c b'/')} {b = all (λ x. not (nat_eq x b'/')) s} plain).0 in
    rw (whole, slash, dot) refl
