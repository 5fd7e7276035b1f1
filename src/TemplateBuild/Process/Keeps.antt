-- ===== src/TemplateBuild/Process/Keeps.antt =====
-- What no part of `processBuild` in internal/templatebuild/service.go does to a build: lose or change
-- a line of its log, or change what the build is.
use open_e2b.Prelude.{
  String, Bool, true, false, if◌then◌else◌, ◌≡◌, refl, sym, ap, ◌∙◌, List, [], ◌∷◌, ◌++◌, map,
  Option, string_eq,
}
use open_e2b.Prelude.Action
use open_e2b.Prelude.Action.{Outcome, done, failed, Action, return, raise, ◌>>=◌, ◌>>◌, Output}
use open_e2b.TemplateBuild.Types.{LogLevel, LogEntry, Build, Machine}
use open_e2b.TemplateBuild.Log.{Job, add_log, log, command, call}

-- Each line of the log is the message of its entry.
abbrev pub IsAligned : Build → Type 0
IsAligned b = map (λ (e : LogEntry). e.message) b.log_entries ≡ b.logs

-- The build `b` is `a` later on.
pub record Later (a b : Build) : Type 0 where
  pub id : b.id ≡ a.id
  pub template_id : b.template_id ≡ a.template_id
  pub config : b.config ≡ a.config
  pub more : List String
  pub logs : b.logs ≡ a.logs ++ more
  pub aligned : IsAligned a → IsAligned b

map-snoc {ℓ κ} :
    {A : Type ℓ} {B : Type κ} (f : A → B) (xs : List A) (x : A)
    → map f (xs ++ x ∷ []) ≡ map f xs ++ f x ∷ []
map-snoc f [] x = refl
map-snoc f (y ∷ xs) x = ap (λ zs. f y ∷ zs) (map-snoc f xs x)

append_nil {ℓ} : {A : Type ℓ} (xs : List A) → xs ++ [] ≡ xs
append_nil [] = refl
append_nil (x ∷ xs) = ap (λ zs. x ∷ zs) (append_nil xs)

append_assoc {ℓ} : {A : Type ℓ} (xs ys zs : List A) → (xs ++ ys) ++ zs ≡ xs ++ (ys ++ zs)
append_assoc [] ys zs = refl
append_assoc (x ∷ xs) ys zs = ap (λ ws. x ∷ ws) (append_assoc xs ys zs)

pub Later-refl : (a : Build) → Later a a
Later-refl a = record {
  id = refl;
  template_id = refl;
  config = refl;
  more = [];
  logs = sym (append_nil a.logs);
  aligned = λ h. h;
}

pub Later-trans : {a b c : Build} → Later a b → Later b c → Later a c
Later-trans {a} p q = record {
  id = q.id ∙ p.id;
  template_id = q.template_id ∙ p.template_id;
  config = q.config ∙ p.config;
  more = p.more ++ q.more;
  logs = q.logs ∙ ap (λ xs. xs ++ q.more) p.logs ∙ append_assoc a.logs p.more q.more;
  aligned = λ h. q.aligned (p.aligned h);
}

pub add_log-Later :
    (now : _) (level : LogLevel) (message : String) (step : Option String) (b : Build)
    → Later b (add_log now level message step b)
unfolding add_log
add_log-Later now level message step b = record {
  id = refl;
  template_id = refl;
  config = refl;
  more = message ∷ [];
  logs = refl;
  aligned =
      λ h. map-snoc (λ (e : LogEntry). e.message) b.log_entries _ ∙ ap (λ xs. xs ++ message ∷ []) h;
}

-- An action that only moves a build on.
pub record Keeps {W A : Type 0} (f : Action (Job W) A) : Type 0 where
  pub moved : (j : Job W) → Later j.build (f j).1.build

module _ {W : Type 0} where
  pub return-Keeps : {A : Type 0} (a : A) → Keeps {W = W} (return a)
  return-Keeps a = record { moved = λ j. Later-refl j.build }

  pub raise-Keeps : (A : Type 0) (e : String) → Keeps {W = W} {A = A} (raise e)
  raise-Keeps A e = record { moved = λ j. Later-refl j.build }

  continue-Later :
      {A B : Type 0} (a : Build) (f : A → Action (Job W) B)
      → ((x : A) → Keeps (f x))
      → (r : Outcome A) (j : Job W) → Later a j.build
      → Later a (Action.continue r f j).1.build
  continue-Later a f k (done x) j h = Later-trans h ((k x).moved j)
  continue-Later a f k (failed e) j h = h

  pub bind-Keeps :
      {A B : Type 0} (g : Action (Job W) A) (f : A → Action (Job W) B)
      → Keeps g
      → ((x : A) → Keeps (f x))
      → Keeps (g >>= f)
  bind-Keeps g f h k = record {
    moved = λ j. continue-Later j.build f k (g j).0 (g j).1 (h.moved j);
  }

  pub if-Keeps :
      {A : Type 0} (b : Bool) (f g : Action (Job W) A)
      → Keeps f
      → Keeps g
      → Keeps (if b then f else g)
  if-Keeps true f g h k = h
  if-Keeps false f g h k = k

module _ {W : Type 0} (m : Machine W) where
  pub log-Keeps :
      (level : LogLevel) (message : String) (step : Option String)
      → Keeps (log m level message step)
  unfolding log
  log-Keeps level message step = record {
    moved = λ j. add_log-Later (m.now j.world).0 level message step j.build;
  }

  pub command-Keeps : (name : String) (args : List String) → Keeps (command m name args)
  unfolding command
  command-Keeps name args = record { moved = λ j. Later-refl j.build }

  pub call-Keeps : {A : Type 0} (f : W → A × W) → Keeps (call m f)
  call-Keeps f = record { moved = λ j. Later-refl j.build }
