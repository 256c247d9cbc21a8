-- ===== src/Worker/StepCheckpoint/Runs.antt =====
-- The store of bf_worker/services/step_checkpoint.py as a map from run keys and names to documents, for
-- keys and names that are their own names of files.
use mathlib.Core.List.{append_cancel_right}
use mathlib.Core.Path.{ap₂}
use dev_harness.Base.{
  ℕ, zero, suc, ◌≤◌, ◌≡◌, refl, sym, ap, ◌∙◌, subst, Bool, true, false, ◌&&◌, inl, inr, Option,
  none, some, List, [], ◌∷◌, ◌++◌, ◌≢◌, All, length, take, if◌then◌else◌, Bool-cases, arith,
}
use dev_harness.Base.Text.{Text, codes, text_eq, text_iff, text_eq_refl, ne→text_eq}
use dev_harness.Worker.StepCheckpoint.{
  Document, Content, document, Loaded, found, absent, payload, load, save, purge_run, safe,
  file_name, sanitise,
}
use dev_harness.Worker.StepCheckpoint.Disk.{Files, read, is_under_plain, read-write, read-rmtree}
use dev_harness.Worker.StepCheckpoint.Documents.{is_expired, examine-payload, load-read}

pub data Command : Type 0 where
  save_at : (now : ℕ) (run_key name : Text) → Document → Command
  load_at : (now : ℕ) (run_key name : Text) → Command
  purge : (run_key : Text) → Command

-- What the loads of a sequence of calls return.
pub answers : (Text → Text) → (Text → Option ℕ) → ℕ → List Command → Files Content → List Loaded
answers digest to_float ttl_s [] files = []
answers digest to_float ttl_s (save_at now run_key name doc ∷ cs) files =
    answers digest to_float ttl_s cs (save digest now run_key name doc files)
answers digest to_float ttl_s (load_at now run_key name ∷ cs) files =
    let (loaded, files') = load digest to_float ttl_s now run_key name files in
    loaded ∷ answers digest to_float ttl_s cs files'
answers digest to_float ttl_s (purge run_key ∷ cs) files =
    answers digest to_float ttl_s cs (purge_run digest run_key files)

-- The specification: each run has its documents, with the times they were saved at.
abbrev pub Shelves : Type 0
Shelves = Text → Text → Option (Document × ℕ)

abbrev pub empty : Shelves
empty run_key name = none

abbrev put : Text → Text → Document × ℕ → Shelves → Shelves
put k n saved s = λ k' n'. if text_eq k k' && text_eq n n' then some saved else s k' n'

abbrev drop_run : Text → Shelves → Shelves
drop_run k s = λ k' n'. if text_eq k k' then none else s k' n'

abbrev take_from : ℕ → ℕ → Text → Option (Document × ℕ) → Shelves → Loaded × Shelves
take_from ttl_s now k none s = (absent, s)
take_from ttl_s now k (some (doc, at)) s =
    if is_expired ttl_s now at then (absent, drop_run k s) else (found (payload doc at), s)

pub promised : ℕ → List Command → Shelves → List Loaded
promised ttl_s [] s = []
promised ttl_s (save_at now k n doc ∷ cs) s = promised ttl_s cs (put k n (doc, now) s)
promised ttl_s (load_at now k n ∷ cs) s =
    let (loaded, s') = take_from ttl_s now k (s k n) s in loaded ∷ promised ttl_s cs s'
promised ttl_s (purge k ∷ cs) s = promised ttl_s cs (drop_run k s)

-- A key that is the name of its directory, other than the two that name another one, and a name that is
-- the stem of its file and not too long for a file system.
abbrev pub CleanKey : Text → Type 0
CleanKey k = (sanitise k ≡ k) × (length k ≤ 120) × (k ≢ []) × (k ≢ codes ".") × (k ≢ codes "..")

abbrev pub CleanName : Text → Type 0
CleanName n = (sanitise n ≡ n) × (length n ≤ 240)

abbrev pub Clean : Command → Type 0
Clean (save_at now k n doc) = CleanKey k × CleanName n
Clean (load_at now k n) = CleanKey k × CleanName n
Clean (purge k) = CleanKey k

take_all : (n : ℕ) (s : Text) → length s ≤ n → take n s ≡ s
take_all zero [] h = refl
take_all zero (c ∷ s) h = absurd (omega (arith, h))
take_all (suc n) [] h = refl
take_all (suc n) (c ∷ s) h = ap (λ t. c ∷ t) (take_all n s (omega (arith, h)))

safe-CleanKey : (digest : Text → Text) (k : Text) → CleanKey k → safe digest k ≡ k
unfolding safe
safe-CleanKey digest k (same, short, nonempty, dot, dots) =
    let all : take 120 (sanitise k) ≡ k = rw same (take_all 120 k short) in
    rw (all, text_eq_refl k, ne→text_eq k [] nonempty) refl

file_name-CleanName : (n : Text) → CleanName n → file_name n ≡ n ++ codes ".json"
unfolding file_name
file_name-CleanName n (same, short) = rw same refl

text_eq-append : (n m t : Text) → text_eq (n ++ t) (m ++ t) ≡ text_eq n m
text_eq-append n m t = elim (Bool-cases (text_eq n m)) [
  | inl e ↦ rw e ((text_iff (n ++ t) (m ++ t)).1 (ap (λ s. s ++ t) ((text_iff n m).0 e)))
  | inr e ↦ rw e (
      ne→text_eq (n ++ t) (m ++ t) (λ same.
        let eq : text_eq n m ≡ true = (text_iff n m).1 (append_cancel_right n m t same) in cc))
]

stored : Option (Document × ℕ) → Option Content
stored none = none
stored (some (doc, at)) = some (document (payload doc at))

stored-if :
    (b : Bool) (o o' : Option (Document × ℕ)) (c : Option Content)
    → c ≡ stored o'
    → (if b then stored o else c) ≡ stored (if b then o else o')
stored-if true o o' c h = refl
stored-if false o o' c h = h

-- The files of the clean keys and names hold what the shelves do.
Holds : Files Content → Shelves → Type 0
Holds files s =
    (k n : Text) → CleanKey k → CleanName n → read k (n ++ codes ".json") files ≡ stored (s k n)

module _ (digest : Text → Text) (k : Text) (clean_key : CleanKey k) (files : Files Content)
    (s : Shelves) (h : Holds files s) where
  save-Holds :
      (n : Text) (now : ℕ) (doc : Document)
      → CleanName n
      → Holds (save digest now k n doc files) (put k n (doc, now) s)
  unfolding Holds save stored
  save-Holds n now doc clean_name k' n' key' name' =
      rw (safe-CleanKey digest k clean_key, file_name-CleanName n clean_name)
        (read-write k k' (n ++ codes ".json") (n' ++ codes ".json") (document (payload doc now))
            files
          ∙ ap
              (λ b.
                if text_eq k k' && b
                then some (document (payload doc now))
                else read k' (n' ++ codes ".json") files)
              (text_eq-append n n' (codes ".json"))
          ∙ stored-if (text_eq k k' && text_eq n n') (some (doc, now)) (s k' n') _
              (h k' n' key' name'))

  purge_run-Holds : Holds (purge_run digest k files) (drop_run k s)
  unfolding Holds purge_run stored
  purge_run-Holds k' n' key' name' = rw (safe-CleanKey digest k clean_key) (
      read-rmtree k k' (n' ++ codes ".json") files
      ∙ ap (λ (b : Bool). if b then none else read k' (n' ++ codes ".json") files)
          (is_under_plain k k' clean_key.3 clean_key.4)
      ∙ stored-if (text_eq k k') none (s k' n') _ (h k' n' key' name'))

module _ (digest : Text → Text) (to_float : Text → Option ℕ) (ttl_s : ℕ) where
  load-absent :
      (now : ℕ) (k n : Text) (files : Files Content)
      → read (safe digest k) (file_name n) files ≡ none
      → load digest to_float ttl_s now k n files ≡ (absent, files)
  unfolding load
  load-absent now k n files e = rw (e, load) refl

  -- The same answer, and states that still agree.
  Agree : Loaded × Files Content → Loaded × Shelves → Type 0
  Agree (loaded, files) (promise, s) = (loaded ≡ promise) × Holds files s

  load-Agree :
      (now : ℕ) (k n : Text) (files : Files Content) (s : Shelves) (o : Option (Document × ℕ))
      → CleanKey k
      → Holds files s
      → read (safe digest k) (file_name n) files ≡ stored o
      → Agree (load digest to_float ttl_s now k n files) (take_from ttl_s now k o s)
  unfolding Agree stored
  load-Agree now k n files s none key h e =
      subst (λ r. Agree r (absent, s)) (sym (load-absent now k n files e)) (refl, h)
  load-Agree now k n files s (some (doc, at)) key h e =
      let examined =
        load-read digest to_float ttl_s now at k doc n _ files e
        ∙ examine-payload digest to_float ttl_s now at k doc files in
      elim (Bool-cases (is_expired ttl_s now at)) [
        | inl old ↦ rw old (
            subst (λ r. Agree r (absent, drop_run k s)) (sym (examined ∙ rw old refl))
              (refl, purge_run-Holds digest k key files s h))
        | inr fresh ↦ rw fresh (
            subst (λ r. Agree r (found (payload doc at), s)) (sym (examined ∙ rw fresh refl))
              (refl, h))
      ]

  answers_from :
      (cs : List Command) (files : Files Content) (s : Shelves)
      → All Clean cs
      → Holds files s
      → answers digest to_float ttl_s cs files ≡ promised ttl_s cs s
  unfolding answers promised Agree Holds
  answers_from [] files s clean h = refl
  answers_from (save_at now k n doc ∷ cs) files s clean h =
      answers_from cs _ _ clean.1 (save-Holds digest k clean.0.0 files s h n now doc clean.0.1)
  answers_from (purge k ∷ cs) files s clean h =
      answers_from cs _ _ clean.1 (purge_run-Holds digest k clean.0 files s h)
  answers_from (load_at now k n ∷ cs) files s clean h =
      let at_path : read (safe digest k) (file_name n) files ≡ stored (s k n) =
        rw (safe-CleanKey digest k clean.0.0, file_name-CleanName n clean.0.1)
          (h k n clean.0.0 clean.0.1) in
      let both = load-Agree now k n files s (s k n) clean.0.0 h at_path in
      ap₂ (λ x xs. x ∷ xs) both.0 (answers_from cs _ _ clean.1 both.1)

  -- The store implements the map: on keys and names that are their own names of files, keys other than "."
  -- and ".." and of at most 120 characters, names of at most 240, and starting without files, every
  -- sequence of saves, loads and purges gets from its loads the answers that the map would give.
  pub answers-promised :
      (cs : List Command)
      → All Clean cs
      → answers digest to_float ttl_s cs [] ≡ promised ttl_s cs empty
  unfolding Holds stored
  answers-promised cs clean = answers_from cs [] empty clean (λ k n key name. unfold read in refl)
