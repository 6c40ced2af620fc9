-- ===== src/Casbin/Names/Tests.antt =====
-- An object's name.
use rustion.Prelude.{◌≡◌, ◌↔◌, true, false, ok}
use rustion.Prelude.Text.{codes, is_empty}
use rustion.Prelude.Trim.{trim}
use rustion.Casbin.Rules.{GroupType}
use rustion.Casbin.Names.{
  CasbinName, group_type_name, is_internal, starts_with_underscore, validate_name,
  validate_name_iff,
}

abbrev servers : CasbinName
servers = record {
  id = 5;
  ptype = codes "g2";
  name = codes "servers";
  is_active = true;
  updated_by = 0;
  updated_at = 0;
}

validate_name_iff_example :
    ((validate_name servers ≡ ok tt) ↔ (
      ((t : GroupType) × (servers.ptype ≡ group_type_name t))
      × (is_empty (trim servers.name) ≡ false)
      × (starts_with_underscore servers.name ≡ false)))
    × (validate_name servers ≡ ok tt → is_internal servers ≡ false)
validate_name_iff_example = validate_name_iff servers
