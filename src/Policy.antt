-- ===== src/Policy.antt =====
-- The expansion of environment variables in a configured path: `expand_env_vars` of src/policy.rs.
use conda_ship.Prelude.{
  ℕ, zero, suc, ◌≤◌, ◌<◌, Bool, true, false, ◌&&◌, ◌||◌, not, Option, none, some, [], ◌∷◌, ◌++◌,
  Text, length, all, is_ascii_alphanumeric, nat_eq, ◌≡◌, refl, if◌then◌else◌, arith, &&-eq-true,
}

-- The text in front of the first `c`, and the text behind it.
split_at : ℕ → Text → Option (Text × Text)
split_at c [] = none
split_at c (x ∷ s) =
    let rest = split_at c s in
    if nat_eq x c
    then some ([], s)
    else elim rest [ none ↦ none | some (before, after) ↦ some (x ∷ before, after) ]

abbrev in_name : ℕ → Bool
in_name c = is_ascii_alphanumeric c || nat_eq c b'_'

-- The longest name at the start of a text, and what follows it.
span_name : Text → Text × Text
span_name [] = ([], [])
span_name (x ∷ s) =
    let rest = span_name s in if in_name x then (x ∷ rest.0, rest.1) else ([], x ∷ s)

push : Text → Option Text → Option Text
push s none = none
push s (some t) = some (s ++ t)

or_else : Option Text → Text → Text
or_else none original = original
or_else (some value) original = value

module _ (env : Text → Option Text) where
  -- `%name%`, where `again` expands what follows.
  percent : (Text → Option Text) → Text → Option (Text × Text) → Option Text
  percent again s none = push (b'%' ∷ []) (again s)
  percent again s (some ([], after)) = push (b'%' ∷ b'%' ∷ []) (again after)
  percent again s (some (c ∷ name, after)) =
      push (or_else (env (c ∷ name)) (b'%' ∷ ((c ∷ name) ++ (b'%' ∷ [])))) (again after)

  -- `${name}`
  braced : (Text → Option Text) → Text → Option (Text × Text) → Option Text
  braced again s none = push (b'$' ∷ []) (again s)
  braced again s (some (name, after)) =
      push (or_else (env name) (b'$' ∷ b'{' ∷ (name ++ (b'}' ∷ [])))) (again after)

  -- `$name`
  bare : (Text → Option Text) → Text → Text → Option Text
  bare again [] after = push (b'$' ∷ []) (again after)
  bare again (c ∷ name) after = push (or_else (env (c ∷ name)) (b'$' ∷ c ∷ name)) (again after)

  dollar : (Text → Option Text) → Text → Option Text
  dollar again [] = push (b'$' ∷ []) (again [])
  dollar again (c ∷ s) =
      if nat_eq c b'{'
      then braced again (c ∷ s) (split_at b'}' s)
      else bare again ((span_name (c ∷ s)).0) ((span_name (c ∷ s)).1)

  -- The loop over what is left of the text; `none` where the fuel ends.
  unfoldable pub expand_from : ℕ → Text → Option Text
  unfolding push or_else percent braced bare dollar split_at span_name
  expand_from fuel [] = some []
  expand_from zero (c ∷ s) = none
  expand_from (suc fuel) (c ∷ s) =
      if nat_eq c b'$'
      then dollar (expand_from fuel) s
      else if nat_eq c b'%'
      then percent (expand_from fuel) s (split_at b'%' s)
      else push (c ∷ []) (expand_from fuel s)

  unfoldable pub expand_env_vars : Text → Option Text
  expand_env_vars path = expand_from (length path) path

abbrev Some : Option Text → Type 0
Some o = (t : Text) × (o ≡ some t)

push-Some : (s : Text) (o : Option Text) → Some o → Some (push s o)
unfolding push
push-Some s o (t, e) = (s ++ t, rw e refl)

abbrev Shorter : ℕ → Option (Text × Text) → Type 0
Shorter n none = Unit {0}
Shorter n (some (_, after)) = length after < n

split_at-Shorter : (c : ℕ) (s : Text) → Shorter (suc (length s)) (split_at c s)
unfolding split_at
split_at-Shorter c [] = tt
split_at-Shorter c (x ∷ s) = sort (nat_eq x c) (split_at c s) (split_at-Shorter c s)
  where
    sort :
        (b : Bool) (rest : Option (Text × Text))
        → Shorter (suc (length s)) rest
        → Shorter (suc (suc (length s))) (
            if b
            then some ([], s)
            else elim rest [ none ↦ none | some (before, after) ↦ some (x ∷ before, after) ])
    sort true rest h = omega arith
    sort false none h = tt
    sort false (some (before, after)) h = omega arith

length-span_name : (s : Text) → length (span_name s).1 ≤ length s
unfolding span_name
length-span_name [] = omega arith
length-span_name (x ∷ s) = sort (in_name x) (length-span_name s)
  where
    sort :
        (b : Bool)
        → length (span_name s).1 ≤ length s
        → length (
            (if◌then◌else◌ {A = Text × Text} b
              (x ∷ (span_name s).0, (span_name s).1)
              ([], x ∷ s)).1)
          ≤ suc (length s)
    sort true h = omega arith
    sort false h = omega arith

if-Some : (b : Bool) (x y : Option Text) → Some x → Some y → Some (if b then x else y)
if-Some true x y h k = h
if-Some false x y h k = k

module _ (env : Text → Option Text) (again : Text → Option Text) (n : ℕ)
    (ends : (s : Text) → length s ≤ n → Some (again s)) where
  percent-Some :
      (s : Text) (o : Option (Text × Text))
      → length s ≤ n
      → Shorter (suc (length s)) o
      → Some (percent env again s o)
  unfolding percent
  percent-Some s none h k = push-Some _ _ (ends s h)
  percent-Some s (some ([], after)) h k = push-Some _ _ (ends after (omega arith))
  percent-Some s (some (c ∷ name, after)) h k = push-Some _ _ (ends after (omega arith))

  braced-Some :
      (s : Text) (o : Option (Text × Text))
      → length s ≤ n
      → Shorter (suc (length s)) o
      → Some (braced env again s o)
  unfolding braced
  braced-Some s none h k = push-Some _ _ (ends s h)
  braced-Some s (some (name, after)) h k = push-Some _ _ (ends after (omega arith))

  bare-Some : (name after : Text) → length after ≤ n → Some (bare env again name after)
  unfolding bare
  bare-Some [] after h = push-Some _ _ (ends after h)
  bare-Some (c ∷ name) after h = push-Some _ _ (ends after h)

  weaken-Shorter :
      (s : Text) (c : ℕ) (o : Option (Text × Text))
      → Shorter (suc (length s)) o
      → Shorter (suc (length (c ∷ s))) o
  weaken-Shorter s c none h = tt
  weaken-Shorter s c (some (x, after)) h = omega arith

  dollar-Some : (s : Text) → length s ≤ n → Some (dollar env again s)
  unfolding dollar
  dollar-Some [] h = push-Some _ _ (ends [] h)
  dollar-Some (c ∷ s) h =
      if-Some (nat_eq c b'{') _ _
        (braced-Some (c ∷ s) (split_at b'}' s) h
          (weaken-Shorter s c (split_at b'}' s) (split_at-Shorter b'}' s)))
        (bare-Some _ _ (omega (arith, length-span_name (c ∷ s))))

expand_from-Some :
    (env : Text → Option Text) (fuel : ℕ) (s : Text)
    → length s ≤ fuel
    → Some (expand_from env fuel s)
unfolding expand_from
expand_from-Some env fuel [] h = ([], refl)
expand_from-Some env zero (c ∷ s) h = absurd (omega arith)
expand_from-Some env (suc fuel) (c ∷ s) h =
    let ends = expand_from-Some env fuel in
    if-Some (nat_eq c b'$') _ _ (dollar-Some env (expand_from env fuel) fuel ends s (omega arith)) (
      if-Some (nat_eq c b'%') _ _
        (percent-Some env (expand_from env fuel) fuel ends s (split_at b'%' s) (omega arith)
          (split_at-Shorter b'%' s))
        (push-Some (c ∷ []) _ (ends s (omega arith))))

-- The expansion of variables in a path ends for every text and every environment.
pub expand_env_vars_total :
    (env : Text → Option Text) (path : Text) → (t : Text) × (expand_env_vars env path ≡ some t)
unfolding expand_env_vars
expand_env_vars_total env path = expand_from-Some env (length path) path (omega arith)

abbrev pub is_plain : ℕ → Bool
is_plain c = not (nat_eq c b'$') && not (nat_eq c b'%')

push_eq : (c : ℕ) (s : Text) (o : Option Text) → o ≡ some s → push (c ∷ []) o ≡ some (c ∷ s)
unfolding push
push_eq c s o e = rw e refl

-- A text with neither a dollar nor a percent sign stays as it is, in every environment.
pub expand_plain :
    (env : Text → Option Text) (path : Text)
    → all is_plain path ≡ true
    → expand_env_vars env path ≡ some path
unfolding expand_env_vars expand_from
expand_plain env [] h = refl
expand_plain env (c ∷ path) h =
    let (plain, rest) = &&-eq-true {a = is_plain c} {b = all is_plain path} h in
    let (no_dollar, no_percent) =
      &&-eq-true {a = not (nat_eq c b'$')} {b = not (nat_eq c b'%')} plain in
    let d : nat_eq c b'$' ≡ false = ground arith in
    let q : nat_eq c b'%' ≡ false = ground arith in
    rw (d, q) (push_eq c path _ (expand_plain env path rest))
