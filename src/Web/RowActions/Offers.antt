-- ===== src/Web/RowActions/Offers.antt =====
-- What the buttons offer, and to whom.
use docksight.Base.{
  String, Bool, true, false, ◌≡◌, ◌≢◌, ◌↔◌, refl, List, [], ◌∷◌, if◌then◌else◌, some, arith, ◌==◌,
  eq_iff,
}
use docksight.Protocol.Container.{ContainerAction, start, stop, restart, remove, pause, unpause}
use docksight.Users.{UserRole, admin, viewer}
use docksight.Auth.{LoginResult, RequestWithUser, authorize}
use docksight.Http.{ok}
use docksight.Web.Api.{Texts, accepted}
use docksight.Web.Session.{Session, sign_in_answered, use_is_admin, finish_request, apply}
use docksight.Web.RowActions.{
  Controls, row_controls, drawer_controls, row_enables, menu_enables, drawer_enables,
}

-- A user who may not manage containers is offered no action, neither in a row nor in a menu nor in the
-- drawer.
pub offers_need_role :
    (c : Controls) (a : ContainerAction)
    → c.can_manage ≡ false
    → (row_enables c a ≡ false) × (menu_enables c a ≡ false) × (drawer_enables c a ≡ false)
unfolding row_enables menu_enables drawer_enables
offers_need_role c start e = (ground (arith, e), ground (arith, e), ground (arith, e))
offers_need_role c stop e = (ground (arith, e), ground (arith, e), ground (arith, e))
offers_need_role c restart e = (ground (arith, e), ground (arith, e), ground (arith, e))
offers_need_role c remove e = (ground (arith, e), ground (arith, e), ground (arith, e))
offers_need_role c pause e = (ground (arith, e), ground (arith, e), ground (arith, e))
offers_need_role c unpause e = (ground (arith, e), ground (arith, e), ground (arith, e))

-- What a row enables its menu enables too, and the drawer as well where it shows the same state.
pub row_enables_less :
    (c : Controls) (a : ContainerAction)
    → row_enables c a ≡ true
    → (menu_enables c a ≡ true) × (drawer_enables c a ≡ true)
unfolding row_enables menu_enables drawer_enables
row_enables_less c start e = (ground (arith, e), ground (arith, e))
row_enables_less c stop e = (ground (arith, e), ground (arith, e))
row_enables_less c restart e = (ground (arith, e), ground (arith, e))
row_enables_less c remove e = absurd (ground (arith, e))
row_enables_less c pause e = absurd (ground (arith, e))
row_enables_less c unpause e = absurd (ground (arith, e))

-- The actions that are enabled, in the order of the menu.
abbrev pub offered : (ContainerAction → Bool) → List ContainerAction
offered enables =
    let some_of : ContainerAction → List ContainerAction → List ContainerAction =
      λ a rest. if enables a then a ∷ rest else rest in
    some_of start
      (some_of stop (some_of restart (some_of pause (some_of unpause (some_of remove [])))))

-- For an administrator, of a container without a command under way: one that runs may be stopped and
-- restarted in its row and also paused and deleted in the menu; one that is paused has nothing in its
-- row, and in the menu it may be started, resumed and deleted; any other may be started, and deleted in
-- the menu. An inspection reports a paused container as running as well, and the drawer then offers to
-- stop and restart it beside resuming and deleting it.
pub offered_lem :
    (lower : String → String) (state : String)
    → let c = row_controls lower state false true true in
      (lower state ≡ "running"
        → (offered (row_enables c) ≡ stop ∷ restart ∷ [])
          × (offered (menu_enables c) ≡ stop ∷ restart ∷ pause ∷ remove ∷ []))
      × (lower state ≡ "paused"
          → (offered (row_enables c) ≡ [])
            × (offered (menu_enables c) ≡ start ∷ unpause ∷ remove ∷ []))
      × (lower state ≢ "running"
          → lower state ≢ "paused"
          → (offered (row_enables c) ≡ start ∷ [])
            × (offered (menu_enables c) ≡ start ∷ remove ∷ []))
      × (offered (
            drawer_enables (
              drawer_controls
                (some (record { running = true; paused = true }))
                state
                false
                true
                true))
          ≡ stop ∷ restart ∷ unpause ∷ remove ∷ [])
unfolding row_enables menu_enables drawer_enables row_controls drawer_controls
offered_lem lower state = (
  λ e. rw e (refl, refl),
  λ e. rw e (refl, refl),
  λ r p.
      let not_running : (lower state == "running") ≡ false =
        ground (arith, eq_iff (lower state) "running", r) in
      let not_paused : (lower state == "paused") ≡ false =
        ground (arith, eq_iff (lower state) "paused", p) in
      rw (not_running, not_paused) (refl, refl),
  refl,
)

-- After a login the client offers actions exactly to a user whom the server lets call the routes that
-- ask for ADMIN, where the server sees the role that the login told.
pub use_is_admin-authorize :
    {Num : Type 0}
    → (texts : Texts Num) (r : LoginResult) (s : Session) (q : RequestWithUser)
    → q.user ≡ some (record { id = r.user.id; role = r.user.role })
    → (use_is_admin (apply texts (sign_in_answered (accepted r)) s) ≡ true)
      ↔ (authorize true (admin ∷ []) q ≡ ok tt)
unfolding apply finish_request use_is_admin authorize
use_is_admin-authorize texts r s q e = go r.user.role refl
  where
    go :
        (role : UserRole)
        → r.user.role ≡ role
        → (use_is_admin (apply texts (sign_in_answered (accepted r)) s) ≡ true)
          ↔ (authorize true (admin ∷ []) q ≡ ok tt)
    go admin h = rw (e, h) (λ p. refl, λ p. refl)
    go viewer h = rw (e, h) (λ p. absurd (ground (arith, p)), λ p. absurd (ground (arith, p)))
