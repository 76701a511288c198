-- ===== src/Tools/Spec.antt =====
-- `ToolSpec`, `ToolRequest`, and the reading of a catalogue entry.
use agenticops.Prelude.{ℕ, String, Bool, Option, List}
use agenticops.Prelude.Json.{Fields}

pub record ToolSpec : Type 0 where
  pub tool_id : String
  pub name : String
  pub category : String
  pub capability : String
  pub executor_type : String
  pub risk_level : ℕ
  pub modes : List String
  pub executable : Bool
  pub allowed_commands : List String
  pub blocked_patterns : List String
  pub requires_approval : Bool
  pub timeout : ℕ
  pub param_schema : Fields
  pub agent_selectable : Bool
  pub read_only : Bool
  pub target_scope : List String
  pub vendor_support : List String
  pub output_parser : Option String
  pub evidence_mapper : Option String

pub record ToolRequest : Type 0 where
  pub tool_id : String
  pub params : Fields
  pub target : Fields
  pub mode : String
