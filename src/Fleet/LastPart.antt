-- ===== src/Fleet/LastPart.antt =====
-- The last component of a path of src/config.rs that a name of src/fleet.rs ends.
use conda_ship.Prelude.{
  ℕ, Bool, true, false, ◌||◌, some, List, [], ◌∷◌, ◌++◌, Text, codes, nat_eq, ◌==◌, list_eq,
  number_eq, if◌then◌else◌, split_on, onto_first, ◌<◌, ◌≡◌, refl, ap, arith, length, length-append,
  ==-ne,
}
use conda_ship.Fs.FilePath.{
  FilePath, join, join_text, push_parts, onto_base, with_extension, file_stem, before_last_dot,
}

is_slash : ℕ → Bool
is_slash c = nat_eq c b'/'

-- The last piece of a text keeps the end of the text.
split_json :
    (s : Text)
    → (front : List Text) × ((seg : Text) × (split_on is_slash (s ++ codes ".json")
          ≡ front ++ ((seg ++ codes ".json") ∷ [])))
unfolding split_on onto_first is_slash
split_json [] = ([], ([], refl))
split_json (c ∷ s) = let (front, (seg, e)) = split_json s in rw e (sort (is_slash c) front seg)
  where
    sort :
        (slash : Bool) (front : List Text) (seg : Text)
        → (new : List Text) × ((part : Text) × ((if slash
                then [] ∷ (front ++ ((seg ++ codes ".json") ∷ []))
                else onto_first c (front ++ ((seg ++ codes ".json") ∷ [])))
              ≡ new ++ ((part ++ codes ".json") ∷ [])))
    sort true front seg = ([] ∷ front, (seg, refl))
    sort false [] seg = ([], (c ∷ seg, refl))
    sort false (part ∷ front) seg = ((c ∷ part) ∷ front, (seg, refl))

-- A last component that names something ends the path.
push_last :
    (front : List Text) (last : Text) (onto : List Text)
    → ((last == []) || (last == codes ".")) ≡ false
    → (above : List Text) × (push_parts (front ++ (last ∷ [])) onto ≡ last ∷ above)
unfolding push_parts
push_last [] last onto h = (onto, rw h refl)
push_last (part ∷ front) last onto h = push_last front last _ h

long-ne : (seg short : Text) → length short < 5 → (seg ++ codes ".json" == short) ≡ false
long-ne seg short few =
    ==-ne (seg ++ codes ".json") short
      λ e. absurd (omega (arith, few, five, length-append seg (codes ".json"), ap length e))
  where
    five : length (codes ".json") ≡ 5
    five = refl

-- Whatever stands before it, `.json` ends the name of a file in some directory.
pub join_text_json :
    (p : FilePath) (s : Text)
    → (dir : FilePath) × ((seg : Text) × (join_text p (s ++ codes ".json")
          ≡ join dir (seg ++ codes ".json")))
unfolding join_text is_slash
join_text_json p s =
    let (front, (seg, e)) = split_json s in
    let base = onto_base p (s ++ codes ".json") in
    let (above, f) = push_last front (seg ++ codes ".json") base.parts (named seg) in
    (record base { parts = above }, (seg, rw (e, f) refl))
  where
    named :
        (seg : Text) → ((seg ++ codes ".json" == []) || (seg ++ codes ".json" == codes ".")) ≡ false
    named seg = rw (long-ne seg [] (omega arith), long-ne seg (codes ".") (omega arith)) refl

-- The stem of a file name that ends in `.json`: of a file of no other name, the whole name.
abbrev pub stem_of : Text → Text
stem_of [] = codes ".json"
stem_of (c ∷ seg) = c ∷ seg

stem_before : (xs ys : Text) → before_last_dot ys ≡ some [] → before_last_dot (xs ++ ys) ≡ some xs
unfolding before_last_dot
stem_before [] ys h = h
stem_before (c ∷ xs) ys h = rw (stem_before xs ys h) refl

file_stem-json : (seg : Text) → file_stem (seg ++ codes ".json") ≡ stem_of seg
unfolding file_stem before_last_dot
file_stem-json [] = refl
file_stem-json (c ∷ seg) =
    let e : before_last_dot ((c ∷ seg) ++ codes ".json") ≡ some (c ∷ seg) =
      stem_before (c ∷ seg) (codes ".json") refl in
    rw (e, file_stem) refl

pub with_extension-json :
    (dir : FilePath) (seg ext : Text)
    → with_extension (join dir (seg ++ codes ".json")) ext ≡ join dir (stem_of seg ++ (b'.' ∷ ext))
unfolding with_extension
with_extension-json dir seg ext =
    rw (long-ne seg (codes "..") (omega arith), file_stem-json seg) refl
