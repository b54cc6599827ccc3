-- ===== src/Examples/Codec.antt =====
-- A concrete reader and writer of the metadata, in the place of serde_json: every value is written
-- as a list of numbers, lists with their length in front.
use Prim.Native.Nat.{ℕ, zero, suc}
use conda_ship.Prelude.{
  Option, none, some, List, [], ◌∷◌, ◌++◌, Text, Bytes, length, ◌≡◌, refl, append_assoc, Bool, true,
  false,
}
use conda_ship.Fs.FilePath.{FilePath}
use conda_ship.RuntimeData.Header.{UpdateOwnership, direct, external}
use conda_ship.Config.Metadata.{
  PendingExecutablePhase, PendingExecutableUpdate, ExecutableUpdateMetadata, PrefixMetadata,
  BootstrapPhase,
}
use conda_ship.Config.Store.{Json}

pub record Codec (A : Type 0) : Type 0 where
  pub put : A → Bytes
  pub get : Bytes → Option (A × Bytes)
  pub get-put : (a : A) (rest : Bytes) → get (put a ++ rest) ≡ some (a, rest)

abbrev pub head_of : Bytes → Option (ℕ × Bytes)
head_of [] = none
head_of (n ∷ rest) = some (n, rest)

abbrev pub number : Codec ℕ
number = record { put = λ n. n ∷ []; get = head_of; get-put = λ n rest. refl }

-- A type with a view of it as another type.
module _ {A B : Type 0} (to : A → B) (from : B → A) (k : Codec B) where
  abbrev pub map_get : Option (B × Bytes) → Option (A × Bytes)
  map_get none = none
  map_get (some (b, rest)) = some (from b, rest)

  abbrev pub via : ((a : A) → from (to a) ≡ a) → Codec A
  via back = record {
    put = λ a. k.put (to a);
    get = λ s. map_get (k.get s);
    get-put = λ a rest. rw (k.get-put (to a) rest, back a) refl;
  }

module _ {A B : Type 0} (j : Codec A) (k : Codec B) where
  abbrev pub with_first : A → Option (B × Bytes) → Option ((A × B) × Bytes)
  with_first a none = none
  with_first a (some (b, rest)) = some ((a, b), rest)

  abbrev pub then_second : Option (A × Bytes) → Option ((A × B) × Bytes)
  then_second none = none
  then_second (some (a, rest)) = with_first a (k.get rest)

  abbrev pub both : Codec (A × B)
  both = record {
    put = λ (a, b). j.put a ++ k.put b;
    get = λ s. then_second (j.get s);
    get-put = λ (a, b) rest.
        rw (append_assoc (j.put a) (k.put b) rest, j.get-put a (k.put b ++ rest), k.get-put b rest)
          refl;
  }

module _ {A : Type 0} (k : Codec A) where
  unfoldable pub put_all : List A → Bytes
  put_all [] = []
  put_all (a ∷ xs) = k.put a ++ put_all xs

  abbrev pub cons_to : A → Option (List A × Bytes) → Option (List A × Bytes)
  cons_to a none = none
  cons_to a (some (xs, rest)) = some (a ∷ xs, rest)

  unfoldable pub get_n : ℕ → Bytes → Option (List A × Bytes)
  get_n zero s = some ([], s)
  get_n (suc n) s = elim (k.get s) [ none ↦ none | some (a, rest) ↦ cons_to a (get_n n rest) ]

  pub get_n-put_all :
      (xs : List A) (rest : Bytes) → get_n (length xs) (put_all xs ++ rest) ≡ some (xs, rest)
  unfolding get_n put_all
  get_n-put_all [] rest = refl
  get_n-put_all (a ∷ xs) rest =
      rw
        (
          append_assoc (k.put a) (put_all xs) rest,
          k.get-put a (put_all xs ++ rest),
          get_n-put_all xs rest,
        )
        refl

  abbrev pub get_counted : Bytes → Option (List A × Bytes)
  get_counted [] = none
  get_counted (n ∷ s) = get_n n s

  abbrev pub list : Codec (List A)
  list = record { put = λ xs. length xs ∷ put_all xs; get = get_counted; get-put = get_n-put_all }

  abbrev pub to_list : Option A → List A
  to_list none = []
  to_list (some a) = a ∷ []

  abbrev pub of_list : List A → Option A
  of_list [] = none
  of_list (a ∷ _) = some a

  pub to_list_lem : (o : Option A) → of_list (to_list o) ≡ o
  to_list_lem none = refl
  to_list_lem (some a) = refl

  abbrev pub option : Codec (Option A)
  option = via to_list of_list list to_list_lem

abbrev pub text : Codec Text
text = list number

abbrev pub bool_to : Bool → ℕ
bool_to true = 1
bool_to false = 0

abbrev pub bool_from : ℕ → Bool
bool_from zero = false
bool_from (suc _) = true

pub bool_lem : (b : Bool) → bool_from (bool_to b) ≡ b
bool_lem true = refl
bool_lem false = refl

abbrev pub bool : Codec Bool
bool = via bool_to bool_from number bool_lem

abbrev pub path : Codec FilePath
path =
    via (λ p. (p.rooted, p.parts)) (λ (r, s). record { rooted = r; parts = s })
      (both bool (list text)) (λ p. refl)

abbrev pub ownership_to : UpdateOwnership → ℕ
ownership_to direct = 0
ownership_to external = 1

abbrev pub ownership_from : ℕ → UpdateOwnership
ownership_from zero = direct
ownership_from (suc _) = external

pub ownership_lem : (b : UpdateOwnership) → ownership_from (ownership_to b) ≡ b
ownership_lem direct = refl
ownership_lem external = refl

abbrev pub ownership : Codec UpdateOwnership
ownership = via ownership_to ownership_from number ownership_lem

abbrev pub bootstrap_to : BootstrapPhase → ℕ
bootstrap_to BootstrapPhase.installing = 0
bootstrap_to BootstrapPhase.ready = 1

abbrev pub bootstrap_from : ℕ → BootstrapPhase
bootstrap_from zero = BootstrapPhase.installing
bootstrap_from (suc _) = BootstrapPhase.ready

pub bootstrap_lem : (b : BootstrapPhase) → bootstrap_from (bootstrap_to b) ≡ b
bootstrap_lem BootstrapPhase.installing = refl
bootstrap_lem BootstrapPhase.ready = refl

abbrev pub bootstrap : Codec BootstrapPhase
bootstrap = via bootstrap_to bootstrap_from number bootstrap_lem

abbrev pub phase_to : PendingExecutablePhase → ℕ
phase_to PendingExecutablePhase.staged = 0
phase_to PendingExecutablePhase.ready = 1
phase_to PendingExecutablePhase.replacing = 2
phase_to PendingExecutablePhase.cleanup = 3

abbrev pub phase_from : ℕ → PendingExecutablePhase
phase_from zero = PendingExecutablePhase.staged
phase_from (suc zero) = PendingExecutablePhase.ready
phase_from (suc (suc zero)) = PendingExecutablePhase.replacing
phase_from (suc (suc (suc _))) = PendingExecutablePhase.cleanup

pub phase_lem : (p : PendingExecutablePhase) → phase_from (phase_to p) ≡ p
phase_lem PendingExecutablePhase.staged = refl
phase_lem PendingExecutablePhase.ready = refl
phase_lem PendingExecutablePhase.replacing = refl
phase_lem PendingExecutablePhase.cleanup = refl

abbrev pub pending : Codec PendingExecutableUpdate
pending =
    via (λ p. (p.phase, (p.version, (p.build_number, p.executable_sha256))))
      (λ (a, (b, (c, d))). record {
        phase = a;
        version = b;
        build_number = c;
        executable_sha256 = d;
      })
      (both (via phase_to phase_from number phase_lem) (both text (both number text))) (λ p. refl)

abbrev pub update : Codec ExecutableUpdateMetadata
update =
    via
      (λ u. (
        u.executable,
        (
          u.ownership,
          (
            u.installation,
            (
              u.artifact_name,
              (
                u.channel,
                (u.package_name, (u.build_number, (u.sha256, (u.instruction, u.pending)))),
              ),
            ),
          ),
        ),
      ))
      (λ (a, (b, (c, (d, (e, (f, (g, (h, (i, j))))))))). record {
        executable = a;
        ownership = b;
        installation = c;
        artifact_name = d;
        channel = e;
        package_name = f;
        build_number = g;
        sha256 = h;
        instruction = i;
        pending = j;
      })
      (both path (
        both ownership (
          both (option text) (
            both text (
              both text
                (both text (both number (both text (both (option text) (option pending))))))))))
      (λ u. refl)

abbrev pub metadata : Codec PrefixMetadata
metadata =
    via
      (λ m. (
        m.schema_version,
        (
          m.display_name,
          (
            m.install_name,
            (
              m.metadata_file,
              (
                m.version,
                (
                  m.delegate_executable,
                  (m.lock_sha256, (m.channels, (m.packages, (m.bootstrap_state, m.update)))),
                ),
              ),
            ),
          ),
        ),
      ))
      (λ (a, (b, (c, (d, (e, (f, (g, (h, (i, (j, k)))))))))). record {
        schema_version = a;
        display_name = b;
        install_name = c;
        metadata_file = d;
        version = e;
        delegate_executable = f;
        lock_sha256 = g;
        channels = h;
        packages = i;
        bootstrap_state = j;
        update = k;
      })
      (both number (
        both text (
          both text (
            both text (
              both text (
                both (option text) (
                  both (option text)
                    (both (list text) (both (list text) (both bootstrap (option update)))))))))))
      (λ m. refl)

abbrev pub first_of {ℓ} : {A : Type ℓ} {B : Type 0} → Option (A × B) → Option A
first_of none = none
first_of (some (a, _)) = some a

parse_metadata : Bytes → Option PrefixMetadata
parse_metadata s = first_of (metadata.get s)

render_metadata : PrefixMetadata → Bytes
render_metadata m = metadata.put m

parse_render : (m : PrefixMetadata) → parse_metadata (render_metadata m ++ b'\n' ∷ []) ≡ some m
unfolding parse_metadata render_metadata
parse_render m = rw (metadata.get-put m (b'\n' ∷ [])) refl

pub json : Json
json = record { parse = parse_metadata; render = render_metadata; parse-render = parse_render }
