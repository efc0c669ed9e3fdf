-- ===== src/Auth/Role/Hierarchy.antt =====
-- The roles are a hierarchy (crates/plc-auth/src/role.rs).
use my_soft_plc.Prelude.{ℕ, ◌≤◌, ◌≡◌, refl, Bool, true, false, List, [], ◌∷◌, arith, if◌then◌else◌}
use my_soft_plc.Types.Ascii.{bytes}
use my_soft_plc.Ir.Table.{bytes_eq}
use my_soft_plc.Auth.Role.{
  Role, viewer, admin, Permission, status_read, config_read, config_write, program_read,
  program_upload, program_arm, program_activate, program_delete, mode_write, tag_read, tag_force,
  metrics_read, diagnostics_read, audit_read, user_admin, rank, permission_name, allows,
}

-- A permission that changes nothing: its name ends in "read".
abbrev pub is_read : List ℕ → Bool
is_read [] = false
is_read (c ∷ rest) =
    let later = is_read rest in if bytes_eq (c ∷ rest) (bytes "_read") then true else later

allows_mono :
    (a b : Role) (p : Permission) → rank a ≤ rank b → allows a p ≡ true → allows b p ≡ true
unfolding allows rank
allows_mono a b p h e = ground arith

viewer_reads : (p : Permission) → allows viewer p ≡ is_read (permission_name p)
unfolding allows permission_name
viewer_reads status_read = refl
viewer_reads config_read = refl
viewer_reads config_write = refl
viewer_reads program_read = refl
viewer_reads program_upload = refl
viewer_reads program_arm = refl
viewer_reads program_activate = refl
viewer_reads program_delete = refl
viewer_reads mode_write = refl
viewer_reads tag_read = refl
viewer_reads tag_force = refl
viewer_reads metrics_read = refl
viewer_reads diagnostics_read = refl
viewer_reads audit_read = refl
viewer_reads user_admin = refl

admin_allows : (p : Permission) → allows admin p ≡ true
unfolding allows
admin_allows p = ground arith

-- A role allows all that a lower role allows; the lowest, VIEWER, allows exactly the permissions
-- whose names end in `_read`; ADMIN allows all; and only ADMIN allows the administration of users.
pub allows_lem :
    ((a b : Role) (p : Permission) → rank a ≤ rank b → allows a p ≡ true → allows b p ≡ true)
    × ((p : Permission) → allows viewer p ≡ is_read (permission_name p))
    × ((p : Permission) → allows admin p ≡ true)
    × ((r : Role) → allows r user_admin ≡ true → r ≡ admin)
unfolding allows
allows_lem = (allows_mono, viewer_reads, admin_allows, λ r h. ground arith)
