-- ===== src/Auth/Role.antt =====
-- Roles and permissions (crates/plc-auth/src/role.rs).
pub mod Hierarchy
use my_soft_plc.Prelude.{ℕ, Bool, List, [], ◌∷◌, leb}
use my_soft_plc.Types.Ascii.{bytes}

pub data Role : Type 0 where
  viewer operator engineer admin : Role

pub data Permission : Type 0 where
  status_read config_read config_write program_read program_upload program_arm program_activate
        program_delete mode_write tag_read tag_force metrics_read diagnostics_read audit_read
        user_admin :
      Permission

unfoldable pub as_str : Role → List ℕ
as_str viewer = bytes "viewer"
as_str operator = bytes "operator"
as_str engineer = bytes "engineer"
as_str admin = bytes "admin"

unfoldable pub rank : Role → ℕ
rank viewer = 0
rank operator = 1
rank engineer = 2
rank admin = 3

unfoldable pub permission_name : Permission → List ℕ
permission_name status_read = bytes "status_read"
permission_name config_read = bytes "config_read"
permission_name config_write = bytes "config_write"
permission_name program_read = bytes "program_read"
permission_name program_upload = bytes "program_upload"
permission_name program_arm = bytes "program_arm"
permission_name program_activate = bytes "program_activate"
permission_name program_delete = bytes "program_delete"
permission_name mode_write = bytes "mode_write"
permission_name tag_read = bytes "tag_read"
permission_name tag_force = bytes "tag_force"
permission_name metrics_read = bytes "metrics_read"
permission_name diagnostics_read = bytes "diagnostics_read"
permission_name audit_read = bytes "audit_read"
permission_name user_admin = bytes "user_admin"

unfoldable pub min_role : Permission → Role
min_role status_read = viewer
min_role config_read = viewer
min_role config_write = engineer
min_role program_read = viewer
min_role program_upload = engineer
min_role program_arm = engineer
min_role program_activate = engineer
min_role program_delete = engineer
min_role mode_write = operator
min_role tag_read = viewer
min_role tag_force = operator
min_role metrics_read = viewer
min_role diagnostics_read = viewer
min_role audit_read = viewer
min_role user_admin = admin

-- `Permission::ALL`.
abbrev pub all : List Permission
all =
    status_read ∷ config_read ∷ config_write ∷ program_read ∷ program_upload ∷ program_arm
    ∷ program_activate ∷ program_delete ∷ mode_write ∷ tag_read ∷ tag_force ∷ metrics_read
    ∷ diagnostics_read ∷ audit_read ∷ user_admin ∷ []

unfoldable pub allows : Role → Permission → Bool
unfolding rank min_role
allows r p = leb (rank (min_role p)) (rank r)
