-- ===== src/Poller/Samples.antt =====
-- A repository with two references that are watched, and a commit that asks for no build.
use jobserv.Prelude.{
  ℕ, ◌++◌, true, false, none, some, starts_with, ◌≡◌, refl, List, [], ◌∷◌, flat_map, Text, text,
  text_eq,
}
use jobserv.Poller.{Refs, get_repo_changes, refs_of}
use jobserv.Poller.Skip.{is_skipped, contains}
use jobserv.Poller.Changes.{change_of, get_repo_changes_lem}
use jobserv.Poller.Table.{Entry, entry_of, sync_entries, sync_entries_lem}
use jobserv.Poller.Projects.{cgit_log}

abbrev url : Text
url = text "u"

abbrev heads : List (Text × Text)
heads = (text "b2", text "refs/heads/m") ∷ (text "c1", text "refs/heads/n") ∷ []

abbrev patterns : List Text
patterns = text "refs/heads/*" ∷ []

abbrev cache : List (Text × Refs)
cache = (url, (text "refs/heads/m", text "a1") ∷ []) ∷ []

get_repo_changes_lem_example :
    (get_repo_changes cache url patterns heads).1
    ≡ flat_map (change_of url patterns (refs_of cache url)) heads
unfolding text_eq
get_repo_changes_lem_example = get_repo_changes_lem cache url patterns heads (refl, (refl, tt))

abbrev old_entry : Entry ℕ ℕ
old_entry = record { trigger = 5; definition = some 50; etag = none }

table_round :
    entry_of 1 (sync_entries ((1, old_entry) ∷ (2, old_entry) ∷ []) ((1, 6) ∷ (3, 7) ∷ []))
    ≡ some (record old_entry { trigger = 6 })
unfolding entry_of
table_round = sync_entries_lem 1 ((1, old_entry) ∷ (2, old_entry) ∷ []) ((1, 6) ∷ (3, 7) ∷ [])

-- The last commit of a server for git asks for no build.
skipped :
    cgit_log
      (text "a")
      (text "b")
      (record { id = text "b"; title = text "x"; content = text "[skip ci]" } ∷ [])
      false
    ≡ (text "b x" ++ 10 ∷ [], true)
unfolding cgit_log is_skipped contains text_eq starts_with
skipped = refl
