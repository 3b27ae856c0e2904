-- ===== src/Uploads/Histories.antt =====
-- The invariant of the upload tables: the events of a receipt are a path of the states, numbered by
-- the attempts so far, and the receipt is where its path has led.
use phone_law.Prelude.{
  ◌≤◌, String, ◌≡◌, refl, sym, ap, ◌∙◌, subst, inl, inr, true, false, ◌||◌, not, some, List, [],
  ◌∷◌, ◌==◌, eq_iff, arith, all, update_where, All, All-map, update_where-IsUnique, Bool-cases,
  if◌then◌else◌,
}
use phone_law.Prelude.Outcome.{ok, Checked, is_ok}
use phone_law.Uploads.Receipts.{
  UploadRow, UploadEventRow, Uploads, events_of, has_receipt, satisfies_checks,
}
use phone_law.Uploads.Repository.{update_receipt, insert_event, write}
use phone_law.Uploads.Paths.{
  may_follow, latest, processings, IsPath, IsCurrent, IsSoundUploads, insert_event-ok,
  KeepsIdentity,
}

module _ (upload_id : String) (f : UploadRow → UploadRow) (keeps : KeepsIdentity f) where
  abbrev rewritten : List UploadRow → List UploadRow
  rewritten receipts = update_where (λ r. r.id == upload_id) f receipts

  pub has_receipt-update :
      (k : String) (receipts : List UploadRow)
      → has_receipt k (rewritten receipts) ≡ has_receipt k receipts
  has_receipt-update k [] = refl
  has_receipt-update k (r ∷ rest) = ground (arith, has_receipt-update k rest, keeps.id r)

  owned-update :
      (receipts : List UploadRow) (events : List UploadEventRow)
      → All (λ e. has_receipt e.upload_id receipts ≡ true) events
      → All (λ e. has_receipt e.upload_id (rewritten receipts) ≡ true) events
  owned-update receipts events h =
      All-map (λ e. has_receipt e.upload_id receipts ≡ true)
        (λ e. has_receipt e.upload_id (rewritten receipts) ≡ true)
        (λ e given. has_receipt-update e.upload_id receipts ∙ given) events h

  -- A row that an update leaves in its state and attempt.
  IsCurrent-update :
      (events : List UploadEventRow) (receipts : List UploadRow)
      → ((r : UploadRow) → (f r).state ≡ r.state)
      → ((r : UploadRow) → (f r).attempt_number ≡ r.attempt_number)
      → All (IsCurrent events) receipts
      → All (IsCurrent events) (rewritten receipts)
  IsCurrent-update events [] state attempt h = tt
  IsCurrent-update events (r ∷ rest) state attempt h = elim (Bool-cases (r.id == upload_id)) [
    | inr e ↦ rw e (h.0, IsCurrent-update events rest state attempt h.1)
    | inl e ↦
        let (a, b, c) = h.0 in
        rw e (
          (rw (keeps.id r, state r) a, rw (keeps.id r, attempt r) b, rw (attempt r) c),
          IsCurrent-update events rest state attempt h.1,
        )
  ]

  pub update_receipt-IsSound :
      (t t' : Uploads)
      → ((r : UploadRow) → (f r).state ≡ r.state)
      → ((r : UploadRow) → (f r).attempt_number ≡ r.attempt_number)
      → IsSoundUploads t
      → update_receipt upload_id f t ≡ (ok tt, t')
      → IsSoundUploads t'
  unfolding update_receipt
  update_receipt-IsSound t t' state attempt s h =
      elim (Bool-cases
        (all (λ r. not (r.id == upload_id) || satisfies_checks r) (rewritten t.receipts))) [
          | inr e ↦ let h' = ap (λ p. is_ok p.0) h in absurd (ground arith)
          | inl e ↦
              let done : Checked × Uploads =
                (ok tt, record t { receipts = rewritten t.receipts }) in
              let h' : done ≡ (ok tt, t') = rw e at h in
              subst IsSoundUploads (ap (λ p. p.1) h') (record {
                paths = s.paths;
                current = IsCurrent-update t.events t.receipts state attempt s.current;
                owned = owned-update t.receipts t.events s.owned;
                one_submission =
                    update_where-IsUnique (λ r. r.client_submission_id) f keeps.submission
                      (λ r. r.id == upload_id) t.receipts s.one_submission;
                one_content =
                    update_where-IsUnique (λ r. r.content_fingerprint) f keeps.content
                      (λ r. r.id == upload_id) t.receipts s.one_content;
              })
        ]

  module _ (e : UploadEventRow) (same : e.upload_id ≡ upload_id) where
    events_of-new :
        (events : List UploadEventRow) (k : String)
        → k ≡ upload_id
        → events_of k (e ∷ events) ≡ e ∷ events_of upload_id events
    events_of-new events k is_own =
        let own : (e.upload_id == upload_id) ≡ true = (eq_iff e.upload_id upload_id).1 same in
        subst (λ l. events_of l (e ∷ events) ≡ e ∷ events_of upload_id events) (sym is_own)
          (rw own refl)

    IsCurrent-new :
        (events : List UploadEventRow) (row : UploadRow)
        → row.id ≡ upload_id
        → row.state ≡ e.state
        → row.attempt_number ≡ processings (e ∷ events_of upload_id events)
        → e.attempt_number ≤ 3
        → e.attempt_number ≡ processings (e ∷ events_of upload_id events)
        → IsCurrent (e ∷ events) row
    IsCurrent-new events row is_own state attempt bound number =
        let own = events_of-new events row.id is_own in
        (
          ap (λ es. latest es) own ∙ ap (λ x. some x) (sym state),
          attempt ∙ ap (λ es. processings es) (sym own),
          omega (arith, attempt, bound, number),
        )

    -- The rows of the receipt are where the new event leads, the others where they were.
    IsCurrent-write :
        (events : List UploadEventRow) (receipts : List UploadRow)
        → ((r : UploadRow) → (f r).state ≡ e.state)
        → ((r : UploadRow)
            → r.attempt_number ≡ processings (events_of upload_id events)
            → (f r).attempt_number ≡ processings (e ∷ events_of upload_id events))
        → e.attempt_number ≤ 3
        → e.attempt_number ≡ processings (e ∷ events_of upload_id events)
        → All (IsCurrent events) receipts
        → All (IsCurrent (e ∷ events)) (rewritten receipts)
    IsCurrent-write events [] state attempt bound number h = tt
    IsCurrent-write events (r ∷ rest) state attempt bound number h =
        elim (Bool-cases (r.id == upload_id)) [
          | inr apart ↦
              let other : (e.upload_id == r.id) ≡ false =
                ground (arith, eq_iff upload_id r.id, eq_iff r.id upload_id, same) in
              (
                subst (λ b. IsCurrent (e ∷ events) (if b then f r else r)) (sym apart)
                    (rw other h.0),
                IsCurrent-write events rest state attempt bound number h.1,
              )
          | inl here ↦
              let there : r.id ≡ upload_id = (eq_iff r.id upload_id).0 here in
              let own : (f r).id ≡ upload_id = keeps.id r ∙ there in
              let (latest_, before, bounded) = h.0 in
              let counted =
                attempt r
                  (subst (λ k. r.attempt_number ≡ processings (events_of k events)) there before) in
              (
                subst (λ b. IsCurrent (e ∷ events) (if b then f r else r)) (sym here)
                    (IsCurrent-new events (f r) own (state r) counted bound number),
                IsCurrent-write events rest state attempt bound number h.1,
              )
        ]

    paths-write :
        (events : List UploadEventRow)
        → may_follow (latest (events_of upload_id events)) e.state ≡ true
        → e.attempt_number ≡ processings (e ∷ events_of upload_id events)
        → ((k : String) → IsPath (events_of k events))
        → (k : String) → IsPath (events_of k (e ∷ events))
    paths-write events follows number paths k = elim (Bool-cases (k == upload_id)) [
      | inl own ↦
          subst IsPath (sym (events_of-new events k ((eq_iff k upload_id).0 own)))
            (follows, number, paths upload_id)
      | inr other ↦
          let apart : (e.upload_id == k) ≡ false =
            ground (arith, eq_iff e.upload_id k, eq_iff k upload_id, same, other) in
          rw apart (paths k)
    ]

    -- A row and an event that are written keep the tables sound, if the event follows the path of its
    -- receipt and is numbered by it.
    pub write-IsSound :
        (t t' : Uploads)
        → ((r : UploadRow) → (f r).state ≡ e.state)
        → ((r : UploadRow)
            → r.attempt_number ≡ processings (events_of upload_id t.events)
            → (f r).attempt_number ≡ processings (e ∷ events_of upload_id t.events))
        → may_follow (latest (events_of upload_id t.events)) e.state ≡ true
        → e.attempt_number ≡ processings (e ∷ events_of upload_id t.events)
        → IsSoundUploads t
        → write upload_id f e t ≡ (ok tt, t')
        → IsSoundUploads t'
    unfolding write update_receipt insert_event
    write-IsSound t t' state attempt follows number s h =
        elim (Bool-cases
          (all (λ r. not (r.id == upload_id) || satisfies_checks r) (rewritten t.receipts))) [
            | inr failed ↦ let h' = ap (λ p. is_ok p.0) h in absurd (ground arith)
            | inl passed ↦
                let h₁ : insert_event e (record t { receipts = rewritten t.receipts })
                    ≡ (ok tt, t') =
                  rw passed at h in
                let (listed, bound, there) =
                  insert_event-ok e (record t { receipts = rewritten t.receipts }) t' h₁ in
                subst IsSoundUploads there (record {
                  paths = paths-write t.events follows number s.paths;
                  current =
                      IsCurrent-write t.events t.receipts state attempt bound number s.current;
                  owned = (listed, owned-update t.receipts t.events s.owned);
                  one_submission =
                      update_where-IsUnique (λ r. r.client_submission_id) f keeps.submission
                        (λ r. r.id == upload_id) t.receipts s.one_submission;
                  one_content =
                      update_where-IsUnique (λ r. r.content_fingerprint) f keeps.content
                        (λ r. r.id == upload_id) t.receipts s.one_content;
                })
          ]
