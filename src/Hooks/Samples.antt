-- ===== src/Hooks/Samples.antt =====
-- A request that asks for a build of a pull request, with a keyed hash that is always the same.
use jobserv.Prelude.{refl, some, [], ◌∷◌, text, text_eq, lookup, starts_with}
use jobserv.Poller.Skip.{contains}
use jobserv.Project.{github_pr}
use jobserv.Hooks.{
  is_hook, HookTrigger, Delivery, defined, on_webhook, find_trigger, validate_payload,
  filter_events, assert_ok_to_test,
}
use jobserv.Hooks.Permitted.{IsOurs, Permits, on_webhook-Permits}

abbrev hook : HookTrigger
hook = record {
  id = 3;
  project = text "lmp";
  type = github_pr;
  secret_data = (text "webhook-key", text "k") ∷ [];
}

-- The same key, but for another project.
abbrev other_hook : HookTrigger
other_hook = record hook { id = 2; project = text "other" }

abbrev delivery : Delivery
delivery = record {
  event = some (text "issue_comment");
  signature = some (text "sha1=ab12");
  body = text "raw";
  repository = text "lmp/kernel";
  comment = text "please ci-retest";
  action = text "created";
  labels = text "ok-to-test" ∷ [];
  number = 7;
  base_repository = text "lmp/kernel";
}

on_webhook-Permits_example :
    IsOurs (text "lmp") (other_hook ∷ hook ∷ []) hook
    × Permits (λ key body. text "ab12") (λ repo. defined) delivery hook 7
unfolding on_webhook find_trigger is_hook validate_payload filter_events assert_ok_to_test contains
    text_eq lookup starts_with
on_webhook-Permits_example =
    on_webhook-Permits (λ key body. text "ab12") (λ repo. defined) (text "lmp")
      (other_hook ∷ hook ∷ []) delivery hook (text "lmp/kernel") 7 refl
