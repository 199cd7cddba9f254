-- ===== src/Knowledge.antt =====
-- python/S2AFL/runtime/knowledge_loader.py: message templates by method.
pub mod Points
pub mod Targets
pub mod Coverage
use s2afl.Prelude.{Option, none, some, List, [], ◌∷◌, Text, text_eq, if◌then◌else◌}

abbrev pub Templates : Type 0
Templates = List (Text × Text)

-- template_for_method
unfoldable pub template_for_method : Text → Templates → Option Text
unfolding text_eq
template_for_method method [] = none
template_for_method method ((name, template) ∷ templates) =
    if text_eq name method then some template else template_for_method method templates
