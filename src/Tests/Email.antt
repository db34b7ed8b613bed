-- ===== src/Tests/Email.antt =====
-- The table of emails and its worker on a sample table.
use rtk_account_manager.Common.{
  ℕ, eq_iff, ◌+◌, ◌/◌, ◌≤◌, ◌≢◌, ◌≡◌, refl, true, false, none, some, List, [], ◌∷◌, All, pos,
  negsuc, ok, plain, delivery_error, arith,
}
use rtk_account_manager.Email.{Payload, Message}
use rtk_account_manager.Model.Email.{EmailOutboxStatus, EmailOutbox}
use rtk_account_manager.Store.Rows.{find_row}
use rtk_account_manager.Store.Selection.{filter_by}
use rtk_account_manager.Store.Selection.Members.{has_key}
use rtk_account_manager.Store.Selection.Permutations.{Reorder}
use rtk_account_manager.Store.Email.{email_key, leased, is_due, claim_email_outbox_ready}
use rtk_account_manager.Store.Email.Diagram.{Changes, IsTable}
use rtk_account_manager.Store.Email.Refinement.{closed_stays}
use rtk_account_manager.Store.Email.Leases.{claim_email_exclusive, due_is_claimed}
use rtk_account_manager.Worker.Email.{
  Service, Mailer, default_jitter, retry_delay, retry, start_delivery,
}
use rtk_account_manager.Worker.Email.Loop.{Schedule, Turn, run_once, run}
use rtk_account_manager.Worker.Email.Delays.{IsInRange, retry_delay_bounds, retry_overflows}
use rtk_account_manager.Worker.Email.Deliveries.{IsReliable, Reports, start_delivery_lem}
use rtk_account_manager.Worker.Email.Rounds.{run-Changes}
use rtk_account_manager.Worker.Email.Items.{IsFair}
use rtk_account_manager.Worker.Email.Liveness.{is_settled, email_is_settled}
use rtk_account_manager.Worker.Email.Schedules.{run_once-Reorder}
use rtk_account_manager.Tests.Samples.{after}

abbrev payload : Payload
payload = record {
  recipient_email = "a@example.com";
  recipient_name = none;
  token = "t-1";
  expires_at = "";
  organization_id = "";
  organization_name = "";
  requested_quota = pos 0;
  approved_quota = none;
  decision_reason = none;
}

abbrev mail : Message
mail = record {
  recipient = "a@example.com";
  reply_to = "";
  subject = "Verify your Realtek Connect account";
  text = "t-1";
  html = "";
}

abbrev waiting : EmailOutbox
waiting = record {
  id = "e-1";
  idempotency_key = "k-1";
  message_type = "email_verification";
  template_version = 1;
  payload_nonce = some (1 ∷ []);
  payload_ciphertext = some (2 ∷ []);
  status = EmailOutboxStatus.pending;
  attempt_count = 0;
  available_at = after 0;
  lease_until = none;
  last_error = none;
  expires_at = none;
  sent_at = none;
  created_at = after 0;
}

-- A row that a worker has left behind.
abbrev abandoned : EmailOutbox
abandoned = record waiting {
  id = "e-2";
  idempotency_key = "k-2";
  status = EmailOutboxStatus.sending;
  lease_until = some (after 5);
}

abbrev finished_email : EmailOutbox
finished_email = record waiting {
  id = "e-3";
  idempotency_key = "k-3";
  status = EmailOutboxStatus.sent;
  payload_nonce = none;
  payload_ciphertext = none;
  sent_at = some (after 3);
}

abbrev emails : List EmailOutbox
emails = waiting ∷ abandoned ∷ finished_email ∷ []

-- A mail service that refuses every message for a while.
abbrev busy : Mailer
busy = record {
  cipher = some (record {
    seal = λ nonce text. text;
    open_sealed = λ nonce text. ok text;
    marshal = λ p. ok (2 ∷ []);
    unmarshal = λ text. ok payload;
  });
  render = λ id type p. ok mail;
  send = λ m. some (delivery_error (plain "status 503") true);
  error_text = λ x. 53 ∷ 10 ∷ [];
  accepts = λ text. true;
  claim_error = none;
  transition_error = λ id. none;
  context_error = λ id. none;
  random = λ id. 7;
}

-- Two attempts, a base of 30 s and a limit of 60 s.
abbrev service : Service
service = record {
  max_attempts = 2;
  poll_interval = 5000000000;
  retry_base = 30000000000;
  retry_max = 60000000000;
  lease_duration = 30000000000;
  batch_size = 20;
  jitter = default_jitter;
  overflowed = negsuc 9223372036854775807;
}

service-IsInRange : IsInRange service
service-IsInRange = (omega arith, omega arith, omega arith)

abbrev in_order : Schedule
in_order = record { start = λ ms. ms; arrive = λ os. os }

-- The first two deliveries change places, and their results.
abbrev swap_two {ℓ} : {A : Type ℓ} → List A → List A
swap_two [] = []
swap_two (x ∷ []) = x ∷ []
swap_two (x ∷ y ∷ xs) = y ∷ x ∷ xs

abbrev swapped : Schedule
swapped = record { start = swap_two; arrive = swap_two }

kept {ℓ} : {A : Type ℓ} (xs : List A) → Reorder xs xs
kept [] = Reorder.empty
kept (x ∷ xs) = Reorder.keep x (kept xs)

swap_two-Reorder {ℓ} : {A : Type ℓ} (xs : List A) → Reorder xs (swap_two xs)
swap_two-Reorder [] = Reorder.empty
swap_two-Reorder (x ∷ []) = kept (x ∷ [])
swap_two-Reorder (x ∷ y ∷ xs) = Reorder.swap x y xs

in_order-IsFair : IsFair in_order
in_order-IsFair = record { starts = kept; arrives = kept }

swapped-IsFair : IsFair swapped
swapped-IsFair = record { starts = swap_two-Reorder; arrives = swap_two-Reorder }

busy-IsReliable : IsReliable busy
busy-IsReliable = record {
  no_claim_error = refl;
  no_transition_error = λ id. refl;
  no_context_error = λ id. refl;
  texts = λ x. refl;
}

emails-IsTable : IsTable emails
emails-IsTable = (
  (
    (λ e. cc ((eq_iff "e-1" "e-2").1 e), (λ e. cc ((eq_iff "e-1" "e-3").1 e), tt)),
    ((λ e. cc ((eq_iff "e-2" "e-3").1 e), tt), (tt, tt)),
  ),
  ((refl, refl), ((refl, refl), ((refl, refl), tt))),
)

abbrev steady : IsReliable busy × IsFair in_order × (false ≡ false)
steady = (busy-IsReliable, in_order-IsFair, refl)

abbrev turn : ℕ → Turn
turn seconds = record {
  mailer = busy;
  schedule = in_order;
  clock = after seconds;
  is_stopped = false;
}

abbrev turns : List Turn
turns = turn 100 ∷ turn 200 ∷ []

email_is_settled_example :
    (m' : EmailOutbox) × (find_row email_key "e-1" (run service turns emails).1 ≡ some m')
    × (is_settled m'.status ≡ true)
unfolding find_row
email_is_settled_example =
    email_is_settled service refl service-IsInRange turns emails waiting (after 0).nanos
      emails-IsTable (omega arith) (steady, (steady, tt)) (omega arith, (omega arith, tt)) refl refl
      (omega arith) (omega arith) (omega arith)

-- The statements of one round.
one_round : Changes emails (run service (turn 100 ∷ []) emails).1
one_round = run-Changes service (turn 100 ∷ []) emails

closed_stays_example :
    find_row email_key "e-3" (run service (turn 100 ∷ []) emails).1 ≡ some finished_email
unfolding find_row
closed_stays_example = closed_stays finished_email emails-IsTable one_round refl refl

run_once-Reorder_example :
    let ((stats, failure), after') = run_once service busy in_order (after 100) emails in
    let ((stats', failure'), after'') = run_once service busy swapped (after 100) emails in
    (stats ≡ stats') × (after' ≡ after'')
run_once-Reorder_example =
    run_once-Reorder service busy in_order swapped (after 100) emails emails-IsTable in_order-IsFair
      swapped-IsFair

claim_email_exclusive_example :
    let (claimed, rows') = claim_email_outbox_ready emails (after 10) (after 40) 20 in
    All
      (λ m. All (λ m'. m.id ≢ m'.id) claimed)
      (claim_email_outbox_ready rows' (after 20) (after 50) 20).0
claim_email_exclusive_example =
    claim_email_exclusive emails (after 10) (after 40) (after 20) (after 50) 20 20 emails-IsTable.0
      (omega arith)

due_is_claimed_example :
    let (claimed, rows') = claim_email_outbox_ready emails (after 10) (after 40) 20 in
    (has_key email_key "e-2" claimed ≡ true)
    × (find_row email_key "e-2" rows' ≡ some (leased (after 40) abandoned))
unfolding find_row is_due filter_by
due_is_claimed_example =
    due_is_claimed emails (after 10) (after 40) 20 abandoned (omega arith) refl refl

-- The abandoned row again, with a lease that has not ended.
abbrev in_hand : EmailOutbox
in_hand = leased (after 40) abandoned

start_delivery_lem_example :
    let ((outcome, handed), rows') =
      start_delivery service busy (after 10) in_hand (in_hand ∷ []) in
    Reports service busy (after 10) in_hand outcome handed
    × (r' : EmailOutbox) × (find_row email_key "e-2" rows' ≡ some r')
    × (outcome ≡ ok (some r'.status))
unfolding find_row
start_delivery_lem_example =
    start_delivery_lem service busy (after 10) in_hand (in_hand ∷ []) in_hand busy-IsReliable refl
      refl refl

retry_delay_bounds_example :
    (n : ℕ) × (retry_delay service 7 3 ≡ pos n)
    × (60000000000 ≤ n)
    × (n ≤ 60000000000 + 60000000000 / 5)
retry_delay_bounds_example = retry_delay_bounds service 7 3 refl service-IsInRange (omega arith)

-- A row after thirty attempts.
abbrev patient : EmailOutbox
patient = record in_hand { attempt_count = 30 }

retry_overflows_example :
    (retry service busy patient (after 10) (plain "status 503")).available_at.nanos
    ≤ (after 10).nanos
retry_overflows_example =
    retry_overflows service busy patient (after 10) (plain "status 503") 9223372036854775807 refl
      refl (omega arith) (omega arith)
