-- ===== src/Tests/Fieldops.antt =====
-- An agent of the sample's ward: a batch of offline records, and the worklist.
use mathlib.Core.List.{Perm}
use acrev360_backend.Base.{
  ℕ, ◌≡◌, refl, ◌⊎◌, true, none, some, List, [], ◌∷◌, ◌==◌, ◌&&◌, select, arith,
}
use acrev360_backend.Base.Int.{◌+ℤ◌}
use acrev360_backend.Base.Table.{find}
use acrev360_backend.Models.Accounts.{FieldAgent}
use acrev360_backend.Models.Billing.{bill_keyed, line_keyed}
use acrev360_backend.Models.Fieldops.{MobileSyncRecord, accepted, rejected, payment_record}
use acrev360_backend.Models.Payments.{Channel, payment_keyed}
use acrev360_backend.Models.Ref.{payment_number}
use acrev360_backend.Models.Registry.{Payer, PayerType, payer_keyed}
use acrev360_backend.Store.{answered, Db, ok, audit}
use acrev360_backend.Billing.Recompute.{recompute_bill, recomputed_status, settled_status}
use acrev360_backend.Common.Scoping.{portfolio_filter}
use acrev360_backend.Enforcement.Close.{close_debt_case_for_bill}
use acrev360_backend.Payments.Fifo.{
  paid_amount, insert_by_position, by_position, fifo_loop, allocate_fifo,
}
use acrev360_backend.Payments.Post.{
  is_ref_taken, is_too_long, create_payment, credit_leftover, issue_receipt, close_if_paid,
  apply_to_bill, record_payment, post_payment,
}
use acrev360_backend.Registry.Payers.{
  is_same_phone, find_duplicate, draft_items, insert_payer, create_payer,
}
use acrev360_backend.Payments.Request.{PaymentData}
use acrev360_backend.Fieldops.Replay.{
  PayerData, of_payment, of_payer, not_an_object, Offline, Buckets, no_records, ward_of_bill,
  enumeration, items_of, replay_payment, replay_sync_record, replay_all, sync_batch,
}
use acrev360_backend.Fieldops.Replay.Laws.{sync_batch-again}
use acrev360_backend.Fieldops.Replay.Payments.{
  with_records, Collected, replay-payment, replay-orphan,
}
use acrev360_backend.Fieldops.Worklist.{get_worklist}
use acrev360_backend.Fieldops.Worklist.Laws.{IsDescending, get_worklist-portfolio}
use acrev360_backend.Tests.Sample.{env, user, payer, db, from_ok, from_answered, sample-IsBalanced}

abbrev agent : FieldAgent
agent = record { id = 1; user = 1; assigned_ward = some 1 }

abbrev collected : PaymentData
collected = record {
  bill_id = 1;
  amount = 400000;
  channel_code = Channel.cash;
  bank_txn_ref = "";
  terminal_id = none;
  geo_lat = none;
  geo_lng = none;
  geo_is_numeric = true;
}

abbrev offline_payment : Offline
offline_payment = record { client_id = "c1"; payload = of_payment (some collected) }

abbrev batch : List Offline
batch = offline_payment ∷ record { client_id = "c2"; payload = of_payment none } ∷ []

abbrev synced : Buckets × Db
unfolding sync_batch replay_all replay_sync_record replay_payment ward_of_bill post_payment
    record_payment create_payment apply_to_bill allocate_fifo fifo_loop paid_amount by_position
    insert_by_position recompute_bill recomputed_status settled_status credit_leftover issue_receipt
    close_if_paid close_debt_case_for_bill is_ref_taken is_too_long audit ◌+ℤ◌
synced = from_answered (no_records, db) (sync_batch env 1 agent 1 batch db)

synced-ok : sync_batch env 1 agent 1 batch db ≡ answered synced
unfolding synced sync_batch replay_all replay_sync_record replay_payment ward_of_bill post_payment
    record_payment create_payment apply_to_bill allocate_fifo fifo_loop paid_amount by_position
    insert_by_position recompute_bill recomputed_status settled_status credit_leftover issue_receipt
    close_if_paid close_debt_case_for_bill is_ref_taken is_too_long audit ◌+ℤ◌
synced-ok = refl

sync_batch-again_example : sync_batch env 1 agent 1 batch synced.1 ≡ answered synced
sync_batch-again_example = sync_batch-again env 1 agent 1 batch db synced.0 synced.1 synced-ok

abbrev sync_record : MobileSyncRecord
sync_record = record {
  id = 1;
  council = 1;
  client_id = "c1";
  record_type = payment_record;
  agent = 1;
  status = accepted;
  result_ref = some (payment_number 1);
}

abbrev replayed : MobileSyncRecord × Db
unfolding replay_sync_record replay_payment ward_of_bill post_payment record_payment create_payment
    apply_to_bill allocate_fifo fifo_loop paid_amount by_position insert_by_position recompute_bill
    recomputed_status settled_status credit_leftover issue_receipt close_if_paid
    close_debt_case_for_bill is_ref_taken is_too_long audit ◌+ℤ◌
replayed = from_ok (sync_record, db) (replay_sync_record env 1 agent 1 offline_payment db)

replayed-ok : replay_sync_record env 1 agent 1 offline_payment db ≡ ok replayed
unfolding replayed replay_sync_record replay_payment ward_of_bill post_payment record_payment
    create_payment apply_to_bill allocate_fifo fifo_loop paid_amount by_position insert_by_position
    recompute_bill recomputed_status settled_status credit_leftover issue_receipt close_if_paid
    close_debt_case_for_bill is_ref_taken is_too_long audit ◌+ℤ◌
replayed-ok = refl

replay-payment_example :
    ((replayed.0.status ≡ rejected) × (replayed.1 ≡ with_records replayed.1.sync_records db))
    ⊎ ((replayed.0.status ≡ accepted)
        × Collected env 1 agent 1 "c1" (some collected) db replayed.0 replayed.1)
replay-payment_example =
    replay-payment env 1 agent 1 "c1" (some collected) db replayed.0 replayed.1 sample-IsBalanced
      refl replayed-ok

abbrev newcomer : PayerData
newcomer = record {
  payer_type = PayerType.individual;
  first_name = "Bala";
  middle_name = "";
  last_name = "Musa";
  phone = "0802";
  address = "";
  nin_bvn_hash = none;
  tin = none;
  business_size = none;
  revenue_item_ids = [];
}

abbrev enumerated : (Payer × ℕ) × Db
unfolding create_payer find_duplicate is_same_phone insert_payer draft_items audit items_of
enumerated = from_ok ((payer, 0), db) (create_payer env (enumeration 1 1 1 newcomer db) db)

enumerated-ok : create_payer env (enumeration 1 1 1 newcomer db) db ≡ ok enumerated
unfolding enumerated create_payer find_duplicate is_same_phone insert_payer draft_items audit
    items_of
enumerated-ok = refl

replay-orphan_example :
    (s : MobileSyncRecord) × (db' : Db) × (replay_sync_record env 1 agent 1
        (record { client_id = "c3"; payload = of_payer (some 1) not_an_object (some newcomer) })
        db
      ≡ ok (s, db'))
    × (s.status ≡ rejected)
    × (find enumerated.0.0.id db'.payers ≡ some enumerated.0.0)
replay-orphan_example =
    replay-orphan env 1 agent 1 1 "c3" newcomer db enumerated.1 enumerated.0.0 enumerated.0.1
      (omega arith) refl refl enumerated-ok

get_worklist-portfolio_example :
    let listed = get_worklist 1 agent none (λ a b. true) db in
    IsDescending db listed
    × Perm listed
        (portfolio_filter db user (select (λ p. p.council == 1 && p.ward == 1) db.payers.rows))
get_worklist-portfolio_example =
    get_worklist-portfolio 1 1 agent user (λ a b. true) db refl refl refl
