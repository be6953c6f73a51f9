-- ===== src/Tasks/Service/Listing.antt =====
-- service.ts: a page shows the items whose detail the actor may see, and no others.
use ai_crm_step.Base.{
  ℕ, String, Bool, false, List, [], ◌∷◌, Option, none, some, ◌≡◌, inl, inr, ap, ◌∙◌, sym, subst,
  arith, filter, ltb, ◌||◌, if◌then◌else◌, Bool-cases, Option-cases,
}
use ai_crm_step.Base.Result.{ok}
use ai_crm_step.Base.Call.{◌>>=◌, >>=-eq-ok, refuse_if-eq-ok}
use ai_crm_step.Tasks.{
  operation_denied, input_invalid, TaskProjectionStatus, task_list, task_detail, TaskActor,
  TaskProjection, TaskPage,
}
use ai_crm_step.Tasks.Store as Store
use ai_crm_step.Tasks.Service.{
  Ports, Journal, Context, attempted, failed, succeeded, authorization_entry, record_audit,
  authorize, finish, sees_item, visible_items, show_page, list_tasks,
}
use ai_crm_step.Tasks.Service.Repeat.{authorize_again, finish_again, guarded-eq-ok, return-eq-ok}

module _ (ports : Ports) (actor : TaskActor) where
  -- The authorization lets the actor see a task.
  abbrev pub may_see : TaskProjection → Bool
  may_see item = elim (ports.authorization actor task_detail (some item.key)) [
    | none ↦ false
    | some decision ↦ decision.allowed
  ]

  sees_item-eq-ok :
      (item : TaskProjection) (seen : Bool) (j j' : Journal)
      → sees_item ports actor item j ≡ (ok seen, j')
      → (seen ≡ may_see item) × (j'.store ≡ j.store)
  unfolding sees_item authorize record_audit finish ◌>>=◌
  sees_item-eq-ok item seen j j' h =
      elim (Option-cases (ports.authorization actor task_detail (some item.key))) [
        | inl missing ↦ ground (arith, missing)
        | inr (decision, given) ↦
            let entry =
              authorization_entry actor task_detail (some item.key) decision.decision_id in
            elim (Bool-cases decision.allowed) [
              | inr denied ↦ elim (Bool-cases (ports.audit (entry (failed operation_denied)))) [
                | inl taken ↦
                    (ground (arith, given, denied, taken), ground (arith, given, denied, taken))
                | inr lost ↦ ground (arith, given, denied, lost)
              ]
              | inl allowed ↦ elim (Bool-cases (ports.audit (entry attempted))) [
                | inr lost ↦ ground (arith, given, allowed, lost)
                | inl taken ↦ elim (Bool-cases (ports.audit (entry succeeded))) [
                  | inr lost ↦ ground (arith, given, allowed, taken, lost)
                  | inl kept ↦ (
                    ground (arith, given, allowed, taken, kept),
                    ground (arith, given, allowed, taken, kept),
                  )
                ]
              ]
            ]
      ]

  visible_items-eq-ok :
      (items shown : List TaskProjection) (j j' : Journal)
      → visible_items ports actor items j ≡ (ok shown, j')
      → (shown ≡ filter may_see items) × (j'.store ≡ j.store)
  unfolding visible_items
  visible_items-eq-ok [] shown j j' h =
      let (equal, same) = return-eq-ok [] shown j j' h in (sym equal, ap (λ i. i.store) (sym same))
  visible_items-eq-ok (item ∷ items) shown j j' h =
      let (seen, j1, h1, k1) = >>=-eq-ok _ _ j h in
      let (rest, j2, h2, k2) = >>=-eq-ok _ _ j1 k1 in
      let (decided, same1) = sees_item-eq-ok item seen j j1 h1 in
      let (filtered, same2) = visible_items-eq-ok items rest j1 j2 h2 in
      let (equal, same3) = return-eq-ok (if seen then item ∷ rest else rest) shown j2 j' k2 in
      (sym equal ∙ ground (arith, decided, filtered), ap (λ i. i.store) (sym same3) ∙ same2 ∙ same1)

  -- The page is the store's, less the items that the actor may not see.
  abbrev pub Shows : TaskPage → TaskPage → Type 0
  Shows page stored =
      (page.items ≡ filter may_see stored.items) × (page.next_cursor ≡ stored.next_cursor)

  show_page-eq-ok :
      (compare : String → String → Bool) (context : Context) (status : Option TaskProjectionStatus)
      (limit : ℕ) (cursor : Option String) (page : TaskPage) (j j' : Journal)
      → show_page ports compare context actor status limit cursor j ≡ (ok page, j')
      → Shows page (Store.list_page compare status limit cursor j.store) × (j'.store ≡ j.store)
  unfolding show_page
  show_page-eq-ok compare context status limit cursor page j j' h =
      let stored = Store.list_page compare status limit cursor j.store in
      let (items, j1, h1, k1) = >>=-eq-ok _ _ j h in
      let (v, j2, h2, k2) = >>=-eq-ok _ _ j1 k1 in
      let (shown, same1) = visible_items-eq-ok stored.items items j j1 h1 in
      let (same2, again) =
        finish_again ports context task_list actor.principal_id succeeded j1 j2 h2 in
      let (equal, same3) = return-eq-ok (record stored { items = items }) page j2 j' k2 in
      (
        (
          ap (λ (q : TaskPage). q.items) (sym equal) ∙ shown,
          ap (λ (q : TaskPage). q.next_cursor) (sym equal),
        ),
        ap (λ i. i.store) (sym same3) ∙ same2 ∙ same1,
      )

  -- Where `list` returns a page, its items are those of the store's page whose detail the
  -- authorization allows the actor, in the order of the store; the cursor is the store's, and the
  -- store is as it was.
  pub list_tasks-Shows :
      (compare : String → String → Bool) (status : Option TaskProjectionStatus) (limit : ℕ)
      (cursor : Option String) (page : TaskPage) (j j' : Journal)
      → list_tasks ports compare actor status limit cursor j ≡ (ok page, j')
      → Shows page (Store.list_page compare status limit cursor j.store) × (j'.store ≡ j.store)
  unfolding list_tasks
  list_tasks-Shows compare status limit cursor page j j' h =
      let (context, j1, h1, k1) = >>=-eq-ok _ _ j h in
      let (same1, again1) = authorize_again ports actor task_list none context j j1 h1 in
      let (u, j2, h2, k2) = >>=-eq-ok _ _ j1 k1 in
      let (fine, same2) = refuse_if-eq-ok (ltb limit 1 || ltb 100 limit) input_invalid j1 j2 h2 in
      let (shows, same3) = show_page-eq-ok compare context status limit cursor page j2 j' (
        guarded-eq-ok ports context task_list actor.principal_id
          (show_page ports compare context actor status limit cursor) page j2 j' k2) in
      let same : j2.store ≡ j.store = ap (λ i. i.store) (sym same2) ∙ same1 in
      (
        subst (λ st. Shows page (Store.list_page compare status limit cursor st)) same shows,
        same3 ∙ same,
      )
