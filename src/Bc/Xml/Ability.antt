-- ===== src/Bc/Xml/Ability.antt =====
-- crates/core/src/bc/xml.rs: what a user may do.
use neolink.Base.{ℕ, List, Option}
use neolink.Base.Words.{Bytes}

pub record AbilityInfoSubModule : Type 0 where
  pub channel_id : Option ℕ
  pub ability_value : Bytes

pub record AbilityInfoToken : Type 0 where
  pub sub_module : List AbilityInfoSubModule

pub record AbilityInfo : Type 0 where
  pub username : Bytes
  pub system : Option AbilityInfoToken
  pub network : Option AbilityInfoToken
  pub alarm : Option AbilityInfoToken
  pub image : Option AbilityInfoToken
  pub video : Option AbilityInfoToken
  pub security : Option AbilityInfoToken
  pub replay : Option AbilityInfoToken
  pub ptz : Option AbilityInfoToken
  pub io : Option AbilityInfoToken
  pub streaming : Option AbilityInfoToken
