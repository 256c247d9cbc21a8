-- ===== src/Worker/Guards/Fetch.antt =====
-- What `validate_fetch_path` of bf_worker/services/fetch_guard.py lets the model read.
use dev_harness.Base.{◌≡◌, ◌↔◌, ◌≢◌, none, false, [], All, if-none, none-if}
use dev_harness.Base.Text.{Text, text_eq→ne, ne→text_eq, any→All, All→any}
use dev_harness.Base.Split.{split_on, join}
use dev_harness.Worker.Guards.{
  slash, slashes, dot_dot, clean, is_absolute_path, validate_fetch_path,
}
use dev_harness.Worker.Guards.Denied.{Harmless, denied_by-none, Harmless-denied_by}

-- A path that the model may read: not empty, not absolute, with no segment `..`, and, without its empty
-- segments and `.`, not empty and not sensitive.
pub Readable : Text → Type 0
Readable path =
    (path ≢ [])
    × (is_absolute_path path ≡ false)
    × All (λ part. part ≢ dot_dot) (split_on slash (slashes path))
    × (join slash (clean (split_on slash (slashes path))) ≢ [])
    × Harmless (join slash (clean (split_on slash (slashes path))))

-- A path is accepted exactly if it is one that the model may read.
pub validate_fetch_path-Readable : (path : Text) → (validate_fetch_path path ≡ none) ↔ Readable path
unfolding validate_fetch_path Readable
validate_fetch_path-Readable path = (
  λ h.
      let h1 = if-none _ _ _ h in
      let h2 = if-none _ _ _ h1.1 in
      let h3 = if-none _ _ _ h2.1 in
      let h4 = if-none _ _ _ h3.1 in
      (
        text_eq→ne path [] h1.0,
        h2.0,
        any→All dot_dot _ h3.0,
        text_eq→ne _ [] h4.0,
        denied_by-none _ h4.1,
      ),
  λ (nonempty, relative, no_parent, some_part, harmless).
      none-if _ _ _ (ne→text_eq path [] nonempty) (
        none-if _ _ _ relative (
          none-if _ _ _ (All→any dot_dot _ no_parent)
            (none-if _ _ _ (ne→text_eq _ [] some_part) (Harmless-denied_by _ harmless)))),
)
