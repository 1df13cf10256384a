-- ===== src/Notify/Delivery.antt =====
-- How often a web hook is posted and a mail is sent, and to whom hooks are posted.
use jobserv.Prelude.{
  ℕ, suc, ◌+◌, ◌≤◌, ◌<◌, ◌≡◌, ◌≢◌, refl, ap, ◌∙◌, ◌⊎◌, length, inl, inr, Bool, true, false, Option,
  none, some, List, [], ◌∷◌, All, Text, lookup, arith, Bool-cases,
}
use jobserv.Status.{BuildStatus, failed, is, is→eq}
use jobserv.Project.{Dict}
use jobserv.Notify.{Answer, is_ok, Delivered, deliver_from, deliver, Hook, webhook}
use jobserv.Notify.Mails.{WebHook, is_wanted, posted, post_one}

-- What a delivery is: the answers before its last post are refusals, and it is a success exactly where
-- the last one is; where it is not, all tries were used.
pub record Delivers (answer : ℕ → Answer) (tries longest : ℕ) (d : Delivered) : Type 0 where
  pub last : ℕ
  pub counted : d.posts ≡ suc last
  pub bounded : d.posts ≤ tries
  pub waited : d.slept ≤ longest
  pub refused : (j : ℕ) → j < last → is_ok (answer j) ≡ false
  pub final : is_ok (answer last) ≡ d.delivered
  pub used : d.delivered ≡ false → d.posts ≡ tries

below_suc : (j n : ℕ) → j < suc n → (j < n) ⊎ (j ≡ n)
below_suc j n h = ground arith

refused_suc :
    (answer : ℕ → Answer) (n : ℕ)
    → ((j : ℕ) → j < n → is_ok (answer j) ≡ false)
    → is_ok (answer n) ≡ false
    → (j : ℕ) → j < suc n
    → is_ok (answer j) ≡ false
refused_suc answer n before e j h = elim (below_suc j n h) [
  | inl l ↦ before j l
  | inr q ↦ ap (λ i. is_ok (answer i)) q ∙ e
]

sum : List ℕ → ℕ
sum [] = 0
sum (i ∷ is) = i + sum is

-- The delivery ends with the post that follows `posts` refusals.
ended-Delivers :
    (answer : ℕ → Answer) (posts slept tries longest : ℕ) (ok : Bool)
    → posts < tries
    → slept ≤ longest
    → ((j : ℕ) → j < posts → is_ok (answer j) ≡ false)
    → is_ok (answer posts) ≡ ok
    → (ok ≡ false → suc posts ≡ tries)
    → Delivers answer tries longest (record { posts = suc posts; slept = slept; delivered = ok })
ended-Delivers answer posts slept tries longest ok t w before e used = record {
  last = posts;
  counted = refl;
  bounded = omega (arith, t);
  waited = w;
  refused = before;
  final = e;
  used = used;
}

deliver_from-Delivers :
    (i : ℕ) (delays : List ℕ) (answer : ℕ → Answer) (posts slept tries longest : ℕ)
    → posts + suc (length delays) ≡ tries
    → slept + (i + sum delays) ≤ longest
    → ((j : ℕ) → j < posts → is_ok (answer j) ≡ false)
    → Delivers answer tries longest (deliver_from (i ∷ delays) answer posts slept)
unfolding deliver_from sum
deliver_from-Delivers i [] answer posts slept tries longest t w before =
    elim (Bool-cases (is_ok (answer posts))) [
      | inl ok ↦ rw ok (
          ended-Delivers answer posts slept tries longest true (omega arith) (omega arith) before ok
            (λ e. absurd (cc e)))
      | inr bad ↦ rw bad (
          ended-Delivers answer posts (slept + i) tries longest false (omega arith) (omega arith)
            before bad (λ e. omega (arith, t)))
    ]
deliver_from-Delivers i (d ∷ ds) answer posts slept tries longest t w before =
    elim (Bool-cases (is_ok (answer posts))) [
      | inl ok ↦ rw ok (
          ended-Delivers answer posts slept tries longest true (omega arith) (omega arith) before ok
            (λ e. absurd (cc e)))
      | inr bad ↦
          rw (deliver_from, bad)
            (deliver_from-Delivers d ds answer (suc posts) (slept + i) tries longest
              (omega (arith, t)) (omega (arith, w)) (refused_suc answer posts before bad))
    ]

-- A web hook is posted again while it is refused, four times at most, with pauses of seven seconds at
-- most; it is given up only after the fourth.
pub deliver-Delivers : (answer : ℕ → Answer) → Delivers answer 4 7 (deliver answer)
unfolding deliver sum
deliver-Delivers answer =
    deliver_from-Delivers 1 (2 ∷ 4 ∷ 0 ∷ []) answer 0 0 4 7 refl (omega arith)
      (λ j h. absurd (omega (arith, h)))

-- One of the hooks that are posted: it is configured, wanted for the status, and signed with a secret of
-- the run that is not empty.
pub record IsPosted (hexdigest : Text → Text → Text) (payload : Text) (secrets : Dict)
    (status : BuildStatus) (h : Hook) : Type 0 where
  pub hook : WebHook
  pub secret : Text
  pub known : lookup hook.secret_name secrets ≡ some secret
  pub some_text : secret ≢ []
  pub wanted : (status ≡ failed) ⊎ (hook.only_failures ≡ false)
  pub sent_as : h ≡ webhook hexdigest payload hook.url secret

is_wanted_lem :
    (status : BuildStatus) (only : Bool)
    → is_wanted status only ≡ true
    → (status ≡ failed) ⊎ (only ≡ false)
unfolding is_wanted
is_wanted_lem status only h = ground (arith, h, is→eq status failed)

post_one-IsPosted :
    (hexdigest : Text → Text → Text) (payload : Text) (secrets : Dict) (status : BuildStatus)
    (w : WebHook) (o : Option Text) (rest : List Hook)
    → lookup w.secret_name secrets ≡ o
    → is_wanted status w.only_failures ≡ true
    → All (IsPosted hexdigest payload secrets status) rest
    → All (IsPosted hexdigest payload secrets status) (post_one hexdigest payload w o rest)
unfolding post_one
post_one-IsPosted hexdigest payload secrets status w none rest e h all = all
post_one-IsPosted hexdigest payload secrets status w (some []) rest e h all = all
post_one-IsPosted hexdigest payload secrets status w (some (c ∷ t)) rest e h all = (
  record {
    hook = w;
    secret = c ∷ t;
    known = e;
    some_text = λ q. cc q;
    wanted = is_wanted_lem status w.only_failures h;
    sent_as = refl;
  },
  all,
)

-- Hooks are posted of a build only where they are configured for its status, and each is signed with the
-- secret that it names, which is there and not empty.
pub posted-IsPosted :
    (hexdigest : Text → Text → Text) (payload : Text) (secrets : Dict) (status : BuildStatus)
    (ws : List WebHook)
    → All (IsPosted hexdigest payload secrets status) (posted hexdigest payload secrets status ws)
unfolding posted
posted-IsPosted hexdigest payload secrets status [] = tt
posted-IsPosted hexdigest payload secrets status (w ∷ ws) =
    let rest = posted-IsPosted hexdigest payload secrets status ws in
    elim (Bool-cases (is_wanted status w.only_failures)) [
      | inl h ↦ rw h (
          post_one-IsPosted hexdigest payload secrets status w (lookup w.secret_name secrets)
            (posted hexdigest payload secrets status ws) refl h rest)
      | inr h ↦ rw h rest
    ]
