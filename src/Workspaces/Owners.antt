-- ===== src/Workspaces/Owners.antt =====
-- What the requests on members keep, and who may make them.
use webhook_relay_service.Workspaces.Members.{
  add_member, given_roles, is_owner, remove_member, set_role, update_member_role, without_member,
  add_member_as, remove_member_as, update_member_role_as, user_by_email,
}
use webhook_relay_service.Workspaces.{Commit, commit}
use webhook_relay_service.Rbac.{Tokens}
use webhook_relay_service.Prelude.{
  Bool, Bool-cases, List, Text, [], arith, codes, false, find, inl, inr, keep, not, one_of, refl,
  some, text_eq, text_eq_iff, true, ℕ, ◌==◌, ◌∷◌, ◌≡◌, ◌++◌, Option-cases, ==_refl,
}
use webhook_relay_service.Model.Rows.{User, WorkspaceMembership}
use webhook_relay_service.Model.Db.{Db, is_member, membership_by_id}

-- A request on the members of a workspace: the workspace, and the e-mail or the user with the role.
pub data MemberRequest : Type 0 where
  add update : Text → Text → Text → MemberRequest
  remove : Text → Text → MemberRequest

abbrev pub owners : List WorkspaceMembership → List WorkspaceMembership
owners = keep is_owner

-- The memberships of the other workspaces.
abbrev pub elsewhere : ℕ → List WorkspaceMembership → List WorkspaceMembership
elsewhere workspace_id = keep (λ m. not (m.workspace_id == workspace_id))

-- The database after a request, whether it succeeded or raised.
abbrev pub after : Tokens → Commit → User → MemberRequest → Db → Db
after tokens at user (add workspace_id email role) db =
    (add_member tokens at workspace_id user email role db).1
after tokens at user (update workspace_id user_id role) db =
    (update_member_role tokens at workspace_id user user_id role db).1
after tokens at user (remove workspace_id user_id) db =
    (remove_member tokens at workspace_id user user_id db).1

given-not_owner :
    (role : Text) → one_of role given_roles ≡ true → text_eq role (codes "owner") ≡ false
given-not_owner role h = ground (
  arith,
  text_eq_iff role (codes "owner"),
  text_eq_iff role (codes "admin"),
  text_eq_iff role (codes "member"),
  text_eq_iff role (codes "viewer"),
)

pub find-passes :
    (p : WorkspaceMembership → Bool) (ms : List WorkspaceMembership) (m : WorkspaceMembership)
    → find p ms ≡ some m
    → p m ≡ true
find-passes p [] m h = cc
find-passes p (x ∷ ms) m h = elim (Bool-cases (p x)) [
  | inl hit ↦ ground (arith, hit)
  | inr miss ↦ find-passes p ms m (rw miss at h)
]

module _ (user_id workspace_id : ℕ) (role : Text) where
  set_role-owners :
      (ms : List WorkspaceMembership) (m : WorkspaceMembership)
      → find (is_member user_id workspace_id) ms ≡ some m
      → is_owner m ≡ false
      → text_eq role (codes "owner") ≡ false
      → owners (set_role user_id workspace_id role ms) ≡ owners ms
  set_role-owners [] m found plain given = refl
  set_role-owners (x ∷ ms) m found plain given =
      elim (Bool-cases (is_member user_id workspace_id x)) [
        | inl hit ↦ ground (arith, hit, found, plain, given)
        | inr miss ↦
            (let ih = set_role-owners ms m (rw miss at found) plain given in
              rw miss (ground (arith, ih)))
      ]

  without-owners :
      (ms : List WorkspaceMembership) (m : WorkspaceMembership)
      → find (is_member user_id workspace_id) ms ≡ some m
      → is_owner m ≡ false
      → owners (without_member user_id workspace_id ms) ≡ owners ms
  without-owners [] m found plain = refl
  without-owners (x ∷ ms) m found plain = elim (Bool-cases (is_member user_id workspace_id x)) [
    | inl hit ↦ ground (arith, hit, found, plain)
    | inr miss ↦
        (let ih = without-owners ms m (rw miss at found) plain in rw miss (ground (arith, ih)))
  ]

  set_role-elsewhere :
      (ms : List WorkspaceMembership)
      → elsewhere workspace_id (set_role user_id workspace_id role ms) ≡ elsewhere workspace_id ms
  set_role-elsewhere [] = refl
  set_role-elsewhere (x ∷ ms) = ground (arith, set_role-elsewhere ms)

  without-elsewhere :
      (ms : List WorkspaceMembership)
      → elsewhere workspace_id (without_member user_id workspace_id ms) ≡ elsewhere workspace_id ms
  without-elsewhere [] = refl
  without-elsewhere (x ∷ ms) = ground (arith, without-elsewhere ms)

keep-last :
    (p : WorkspaceMembership → Bool) (ms : List WorkspaceMembership) (m : WorkspaceMembership)
    → p m ≡ false
    → keep p (ms ++ m ∷ []) ≡ keep p ms
keep-last p [] m h = rw h refl
keep-last p (x ∷ ms) m h = ground (arith, keep-last p ms m h)

-- The owners, and the members of other workspaces, are as they were.
abbrev pub KeepsOthers : ℕ → Db → Db → Type 0
KeepsOthers workspace_id db db' =
    (owners db'.memberships ≡ owners db.memberships)
    × (elsewhere workspace_id db'.memberships ≡ elsewhere workspace_id db.memberships)

module _ (tokens : Tokens) (at : Commit) (caller : WorkspaceMembership) (db : Db) where
  commit_as-KeepsOthers :
      {A : Type 0} (result : A) (db' : Db)
      → KeepsOthers caller.workspace_id db db'
      → KeepsOthers caller.workspace_id db (commit at result db' db).1
  unfolding commit
  commit_as-KeepsOthers result db' h = elim (Bool-cases at.commits) [
    | inl done ↦ simp done h
    | inr lost ↦ simp lost (refl, refl)
  ]

  pub add_as-KeepsOthers :
      (email role : Text)
      → KeepsOthers caller.workspace_id db (add_member_as tokens at caller email role db).1
  unfolding add_member_as
  add_as-KeepsOthers email role = elim (Bool-cases (one_of role given_roles)) [
    | inr wrong ↦ simp wrong (refl, refl)
    | inl given ↦ elim (Option-cases (user_by_email email db)) [
      | inl nobody ↦ simp (given, nobody) (refl, refl)
      | inr (user, found) ↦ elim (Option-cases (membership_by_id user.id caller.workspace_id db)) [
        | inr (m, old) ↦ simp (given, found, old) (refl, refl)
        | inl new_member ↦
            simp (given, found, new_member)
              (commit_as-KeepsOthers _ _ (
                keep-last is_owner db.memberships _ (given-not_owner role given),
                keep-last _ db.memberships _ (simp ==_refl),
              ))
      ]
    ]
  ]

  pub update_as-KeepsOthers :
      (user_id role : Text)
      → KeepsOthers caller.workspace_id db
          (update_member_role_as tokens at caller user_id role db).1
  unfolding update_member_role_as membership_by_id
  update_as-KeepsOthers user_id role = elim (Bool-cases (one_of role given_roles)) [
    | inr wrong ↦ simp wrong (refl, refl)
    | inl given ↦ elim (Option-cases (tokens.parse_uuid user_id)) [
      | inl bad ↦ simp (given, bad) (refl, refl)
      | inr (uid, parsed) ↦
          elim (Option-cases (find (is_member uid caller.workspace_id) db.memberships)) [
            | inl nobody ↦ simp (given, parsed, nobody) (refl, refl)
            | inr (m, found) ↦ elim (Bool-cases (is_owner m)) [
              | inl owner ↦ simp (given, parsed, found, owner) (refl, refl)
              | inr plain ↦
                  simp (given, parsed, found, plain)
                    (commit_as-KeepsOthers _ _ (
                      set_role-owners uid caller.workspace_id role db.memberships m found plain
                          (given-not_owner role given),
                      set_role-elsewhere uid caller.workspace_id role db.memberships,
                    ))
            ]
          ]
    ]
  ]

  pub remove_as-KeepsOthers :
      (user_id : Text)
      → KeepsOthers caller.workspace_id db (remove_member_as tokens at caller user_id db).1
  unfolding remove_member_as membership_by_id
  remove_as-KeepsOthers user_id = elim (Option-cases (tokens.parse_uuid user_id)) [
    | inl bad ↦ simp bad (refl, refl)
    | inr (uid, parsed) ↦
        elim (Option-cases (find (is_member uid caller.workspace_id) db.memberships)) [
          | inl nobody ↦ simp (parsed, nobody) (refl, refl)
          | inr (m, found) ↦ elim (Bool-cases (is_owner m)) [
            | inl owner ↦ simp (parsed, found, owner) (refl, refl)
            | inr plain ↦
                simp (parsed, found, plain)
                  (commit_as-KeepsOthers _ _ (
                    without-owners uid caller.workspace_id [] db.memberships m found plain,
                    without-elsewhere uid caller.workspace_id [] db.memberships,
                  ))
          ]
        ]
  ]
