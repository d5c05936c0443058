-- ===== src/Enums.antt =====
-- src/models/enums: the ids of the built-in roles, and the names that permission checks use.
use edtech_lms_api.Prelude.{String, List, [], ◌∷◌}

abbrev pub admin_role : String
admin_role = "zr5ER4QD"

abbrev pub superadmin_role : String
superadmin_role = "Mapyr2Pw"

abbrev pub user_role : String
user_role = "wSRgm8KP"

abbrev pub teacher_role : String
teacher_role = "Q3Qs7PuD"

abbrev pub apikey_role : String
apikey_role = "dErM4cvb"

abbrev pub organisationadmin_role : String
organisationadmin_role = "unb3Fy8p"

-- `Object.values(Role)`
abbrev pub role_values : List String
role_values =
    admin_role ∷ superadmin_role ∷ user_role ∷ teacher_role ∷ apikey_role ∷ organisationadmin_role
    ∷ []

-- The wildcard permission.
abbrev pub superadmin_permission : String
superadmin_permission = "superadmin"
