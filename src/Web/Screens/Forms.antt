-- ===== src/Web/Screens/Forms.antt =====
-- The form of the first administrator, from its button to the server.
use docksight.Base.{String, true, false, ◌≡◌, refl, ◌≤◌, ◌==◌, arith, eq_iff, sym}
use docksight.Text.{units}
use docksight.Http.{conflict, ok, thrown}
use docksight.Users.{UserTable, Passwords, AuthUser, create_first_admin}
use docksight.Users.Laws.{create_first_admin_once}
use docksight.Web.Api.{Texts, unreachable, accepted}
use docksight.Web.Session.{
  Session, setup_required, first_admin_answered, sign_in_answered, finish_request, apply,
}
use docksight.Web.Screens.{
  Router, Location, screen, setup_form, follow, AuthForm, setup_disabled, too_short, mismatch,
  submit_setup,
}
use docksight.Web.Screens.Settles.{follow-Fits}

-- Where the button of the setup can be pressed, the form goes on to the call, with a password of 8
-- UTF-16 units or more, and shows no hint that it is too short or differs from its repetition.
pub submit_setup_enabled :
    (f : AuthForm)
    → setup_disabled f ≡ false
    → ((submit_setup f).1 ≡ true)
      × (8 ≤ units f.password)
      × (too_short f ≡ false)
      × (mismatch f ≡ false)
unfolding submit_setup
submit_setup_enabled f e =
    let same : (f.password == f.confirm) ≡ true = ground (arith, e) in
    let back : (f.confirm == f.password) ≡ true =
      (eq_iff f.confirm f.password).1 (sym ((eq_iff f.password f.confirm).0 same)) in
    (rw same refl, ground (arith, e), ground (arith, e), ground (arith, back))

-- When the first administrator has been created but the login that follows does not reach the server,
-- the client stays on the setup form, whatever the location, and the server refuses every further
-- attempt of that form, as long as the users have not become fewer.
pub setup_stuck :
    {Num : Type 0}
    → (router : Router) (texts : Texts Num) (db : UserTable) (pw : Passwords)
      (email password salt message : String) (counted looked t t' : db.Table) (u : AuthUser)
      (s : Session) (l : Location)
    → s.status ≡ setup_required
    → create_first_admin db pw email password salt counted looked t ≡ (t', ok u)
    → let after =
        apply texts
          (sign_in_answered (unreachable message))
          (apply texts (first_admin_answered (accepted u)) s) in
      (screen router after.status (follow router 1 after.status l) ≡ setup_form)
      × ((e p salt' : String) (later later_looked now : db.Table)
          → db.count t' ≤ db.count later
          → create_first_admin db pw e p salt' later later_looked now
            ≡ (now, thrown (conflict "DockSight has already been set up")))
unfolding apply finish_request
setup_stuck router texts db pw email password salt message counted looked t t' u s l h made =
    let (_, _, _, _, refused) =
      create_first_admin_once db pw email password salt counted looked t t' u made in
    let stuck = (follow-Fits router setup_required l).0 in rw h (stuck, refused)
