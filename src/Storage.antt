-- ===== src/Storage.antt =====
-- The manual synchronisation of the stores: internal/storage/sync.go.
pub mod Publication
pub mod Sync
mod Tests
use kode_stream.Prelude.{
  ℕ, ◌≡◌, ◌↔◌, refl, sym, ap, ◌∙◌, Bool, true, List, [], ◌∷◌, Option, String, Map, Comparable,
  nat_eq, ◌==◌, if◌then◌else◌, nat_beq, nat_beq_iff,
}

-- The files of the data directory. Their names are constants, and all different.
pub data StoreFile : Type 0 where
  registry_file plan_index audit_log saved_filters recent_items ai_settings canvases session_records
        knowledge_index :
      StoreFile

abbrev pub number : StoreFile → ℕ
number registry_file = 0
number plan_index = 1
number audit_log = 2
number saved_filters = 3
number recent_items = 4
number ai_settings = 5
number canvases = 6
number session_records = 7
number knowledge_index = 8

abbrev numbered : ℕ → StoreFile
numbered n =
    if n == 0
    then registry_file
    else if n == 1
    then plan_index
    else if n == 2
    then audit_log
    else if n == 3
    then saved_filters
    else if n == 4
    then recent_items
    else if n == 5
    then ai_settings
    else if n == 6
    then canvases
    else if n == 7
    then session_records
    else knowledge_index

numbered-number : (f : StoreFile) → numbered (number f) ≡ f
numbered-number registry_file = refl
numbered-number plan_index = refl
numbered-number audit_log = refl
numbered-number saved_filters = refl
numbered-number recent_items = refl
numbered-number ai_settings = refl
numbered-number canvases = refl
numbered-number session_records = refl
numbered-number knowledge_index = refl

abbrev pub file_beq : StoreFile → StoreFile → Bool
file_beq f g = nat_beq (number f) (number g)

pub file_beq_iff : (f g : StoreFile) → (file_beq f g ≡ true) ↔ (f ≡ g)
file_beq_iff f g = (
  λ h.
      sym (numbered-number f)
      ∙ ap numbered ((nat_beq_iff (number f) (number g)).0 h)
      ∙ numbered-number g,
  λ h. (nat_beq_iff (number f) (number g)).1 (ap number h),
)

instance abbrev pub file_eq : Comparable StoreFile
file_eq = record { equal = file_beq; equal_iff = file_beq_iff }

-- The directories that a synchronisation works on, with the content of each file that is there: the
-- stage, the data directory and the backup.
pub record Disk : Type 0 where
  pub stage : Map StoreFile String
  pub target : Map StoreFile String
  pub backup : Map StoreFile String

-- The files that are published, and those that are saved before, in the order of the code.
abbrev pub published : List StoreFile
published =
    registry_file ∷ plan_index ∷ audit_log ∷ saved_filters ∷ recent_items ∷ ai_settings ∷ canvases
    ∷ session_records ∷ []

abbrev pub backed_up : List StoreFile
backed_up =
    registry_file ∷ plan_index ∷ audit_log ∷ saved_filters ∷ recent_items ∷ ai_settings ∷ canvases
    ∷ session_records ∷ knowledge_index ∷ []
