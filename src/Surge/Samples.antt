-- ===== src/Surge/Samples.antt =====
-- Two queued runs for one worker with one slot.
use jobserv.Prelude.{
  ◌+◌, ◌≡◌, ◌⊎◌, refl, true, false, ◌||◌, List, [], ◌∷◌, All, Text, text, text_eq, split, strip,
  length,
}
use jobserv.Fixtures.{sample_worker}
use jobserv.Workers.{stripped_tags}
use jobserv.Surge.{
  assign, total_slots, hosts_of, surging, check_queue, started, rounds, round, claim_run, surges_of,
  bump, start_surges, end_surges,
}
use jobserv.Surge.Claims.{tags_of, unclaimed, CanTake, assign_accounts, assign_maximal}
use jobserv.Surge.Files.{waiting, young, check_queue_lem}

abbrev queue : List Text
queue = text "amd64" ∷ text "amd64" ∷ []

surge_starts :
    check_queue true 1 1000 (sample_worker ∷ []) queue []
    ≡ ((text "amd64", 1000) ∷ [], started (text "amd64") ∷ [])
unfolding check_queue start_surges end_surges surges_of assign rounds total_slots hosts_of round
    claim_run stripped_tags split text_eq strip bump surging
surge_starts = refl

assign_accounts_example :
    let r = assign 1 (sample_worker ∷ []) queue in
    (r.matches_found ≡ false)
    × (tags_of r.queue ≡ queue)
    × (total_slots r.hosts + length queue
        ≡ total_slots (hosts_of 1 (sample_worker ∷ [])) + unclaimed r.queue)
assign_accounts_example = assign_accounts 1 (sample_worker ∷ []) queue

assign_maximal_example :
    let r = assign 1 (sample_worker ∷ []) queue in
    All (λ h. (h.slots ≡ 0) ⊎ All (λ run. ¬ CanTake h.tags run) r.queue) r.hosts
assign_maximal_example = assign_maximal 1 (sample_worker ∷ []) queue

check_queue_lem_example :
    surging (text "amd64") (check_queue true 1 1000 (sample_worker ∷ []) queue []).0 ≡ (
      waiting (text "amd64") (assign 1 (sample_worker ∷ []) queue).queue
      || young true 1000 (text "amd64") [])
check_queue_lem_example = check_queue_lem true 1 1000 (sample_worker ∷ []) queue [] (text "amd64")
