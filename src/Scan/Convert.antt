-- ===== src/Scan/Convert.antt =====
-- Values between the image and the machine (crates/plc-scan/src/convert.rs).
use my_soft_plc.Prelude.{◌≡◌, refl}
use my_soft_plc.Prelude.Word.{half32, wrap}
use my_soft_plc.Io.Value
use my_soft_plc.Io.Value.{PlcValue}
use my_soft_plc.Vm.Value.{VmValue, bool, int, dint, real, time, lint}

module _ {ℓ} {F : Type ℓ} where
  unfoldable pub plc_to_vm : PlcValue F → VmValue F
  plc_to_vm (Value.bool b) = bool b
  plc_to_vm (Value.int v) = int v
  plc_to_vm (Value.dint v) = dint v
  plc_to_vm (Value.real v) = real v
  plc_to_vm (Value.time v) = time v

  -- LINT is no type of the image: its low word is a DINT.
  unfoldable pub vm_to_plc : VmValue F → PlcValue F
  vm_to_plc (bool b) = Value.bool b
  vm_to_plc (int v) = Value.int v
  vm_to_plc (dint v) = Value.dint v
  vm_to_plc (real v) = Value.real v
  vm_to_plc (time v) = Value.time v
  vm_to_plc (lint v) = Value.dint (wrap half32 v)

  -- A value of the image comes back from the machine as it was.
  pub vm_to_plc-plc_to_vm : (v : PlcValue F) → vm_to_plc (plc_to_vm v) ≡ v
  unfolding vm_to_plc plc_to_vm
  vm_to_plc-plc_to_vm (Value.bool b) = refl
  vm_to_plc-plc_to_vm (Value.int v) = refl
  vm_to_plc-plc_to_vm (Value.dint v) = refl
  vm_to_plc-plc_to_vm (Value.real v) = refl
  vm_to_plc-plc_to_vm (Value.time v) = refl
