-- ===== src/Io/Image.antt =====
-- The process image (crates/plc-io/src/image.rs), and what passes between the scan and a driver
-- (driver.rs). The tags and units of the slots are texts.
use my_soft_plc.Prelude.{
  ℕ, Bool, true, false, Option, none, some, List, Result, ok, ok_or, ◌>>=◌, get_elem?, set,
  replicate,
}
use my_soft_plc.Types.Quality.{Quality, good, is_good}
use my_soft_plc.Io.Value.{ValueType, PlcValue, bool, default_of}
use my_soft_plc.Io.Force.{BadQualityPolicy}

pub record SlotMeta : Type 0 where
  pub tag : List ℕ
  pub ty : ValueType
  pub unit : List ℕ

module _ {ℓ} where
  pub record TypedSlot (F : Type ℓ) : Type ℓ where
    pub value : PlcValue F
    pub quality : Quality
    pub written : Bool

  pub record ProcessImage (F : Type ℓ) : Type ℓ where
    pub inputs : List (TypedSlot F)
    pub outputs : List (TypedSlot F)
    pub memory : List (TypedSlot F)
    pub input_meta : List SlotMeta
    pub output_meta : List SlotMeta
    pub memory_meta : List SlotMeta
    pub output_safe : List (PlcValue F)

  pub record InputUpdate (F : Type ℓ) : Type ℓ where
    pub values : List (PlcValue F)
    pub quality : List Quality
    pub seq : ℕ  -- u64

  pub record OutputImage (F : Type ℓ) : Type ℓ where
    pub values : List (PlcValue F)
    pub force_safe : Bool

pub record OutputModuleState : Type 0 where
  pub quality : Quality
  pub on_bad_quality : BadQualityPolicy

-- `IoError::Bounds`, without its text.
pub data IoError : Type 0 where
  bounds : (idx : ℕ) → IoError

module _ {ℓ} {F : Type ℓ} where
  -- The first argument is the float `0.0`.
  unfoldable pub zero_slot : F → ValueType → TypedSlot F
  unfolding default_of
  zero_slot zero ty = record { value = default_of zero ty; quality = good; written = false }

  unfoldable pub get_input : ProcessImage F → ℕ → Result (TypedSlot F) IoError
  get_input image idx = ok_or (get_elem? image.inputs idx) (bounds idx)

  unfoldable pub set_input :
      ProcessImage F → ℕ → PlcValue F → Quality → Result (ProcessImage F) IoError
  set_input image idx value quality = do
    slot ← ok_or (get_elem? image.inputs idx) (bounds idx)
    let slot' : TypedSlot F = record { value = value; quality = quality; written = true }
    ok (record image { inputs = set image.inputs idx slot' })

  unfoldable pub get_output : ProcessImage F → ℕ → Result (TypedSlot F) IoError
  get_output image idx = ok_or (get_elem? image.outputs idx) (bounds idx)

  -- The quality of the slot is kept.
  unfoldable pub set_output : ProcessImage F → ℕ → PlcValue F → Result (ProcessImage F) IoError
  set_output image idx value = do
    slot ← ok_or (get_elem? image.outputs idx) (bounds idx)
    let slot' : TypedSlot F = record slot { value = value; written = true }
    ok (record image { outputs = set image.outputs idx slot' })

  abbrev slot_good : Option (TypedSlot F) → Bool
  slot_good none = false
  slot_good (some slot) = is_good slot.quality

  unfoldable pub input_quality_good : ProcessImage F → ℕ → Bool
  input_quality_good image idx = slot_good (get_elem? image.inputs idx)

  unfoldable pub zero_update : ℕ → InputUpdate F
  zero_update n = record { values = replicate n (bool false); quality = replicate n good; seq = 0 }
