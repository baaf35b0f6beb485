-- ===== src/Factory/Tests.antt =====
-- Runs of the factory functions of vboxdrv/SUPDrv.c, and the theorems about them at concrete chains.
use virtualbox_drv.Common.{
  ℕ, ◌≡◌, refl, true, some, List, [], ◌∷◌, ◌==◌, if◌then◌else◌, success, already_exists,
  access_denied, component_not_found,
}
use virtualbox_drv.Obj.{bird_inv}
use virtualbox_drv.Factory.{
  Factory, FactoryReg, Caller, nil_r0_process, str_end, append_reg, link_factory, register_factory,
  deregister_factory, same_bytes, query_loop, query_factory,
}
use virtualbox_drv.Factory.Registration.{UniqueRegs, find_reg, deregister_factory-register_factory}
use virtualbox_drv.Factory.Query.{Answered, query_factory-Answered}

-- The factories at 10 and 20, named "n".
abbrev factories : ℕ → Factory
factories f = record { name = 110 ∷ 0 ∷ []; has_query = true }

abbrev kernel_session : Caller
kernel_session = record { ptr = 1; cookie = bird_inv; r0_process = nil_r0_process }

abbrev user_session : Caller
user_session = record { ptr = 2; cookie = bird_inv; r0_process = 77 }

abbrev chain : List FactoryReg
chain = record { factory = 10; session = 1; cch_name = 1 } ∷ []

abbrev longer_chain : List FactoryReg
longer_chain =
    record { factory = 10; session = 1; cch_name = 1 }
    ∷ record { factory = 20; session = 1; cch_name = 1 }
    ∷ []

abbrev answers : ℕ → ℕ → List ℕ → ℕ
answers f s id = if f == 20 then 99 else 0

register_second :
    register_factory true success factories kernel_session 20 chain ≡ (longer_chain, success)
unfolding register_factory str_end link_factory append_reg
register_second = refl

register_again :
    register_factory true success factories kernel_session 10 chain ≡ (chain, already_exists)
unfolding register_factory str_end link_factory append_reg
register_again = refl

register_user :
    register_factory true success factories user_session 20 chain ≡ (chain, access_denied)
unfolding register_factory
register_user = refl

-- The factory at 10 has the name but no answer; the one at 20 gives its interface.
query_second :
    query_factory success factories answers user_session
      (some (110 ∷ 0 ∷ []))
      (some (0 ∷ []))
      true
      longer_chain
    ≡ (success, 99)
unfolding query_factory str_end query_loop same_bytes
query_second = refl

longer_chain-UniqueRegs : UniqueRegs longer_chain
unfolding find_reg
longer_chain-UniqueRegs = (refl, (refl, tt))

chain-UniqueRegs : UniqueRegs chain
unfolding find_reg
chain-UniqueRegs = (refl, tt)

deregister_factory-register_factory_example :
    deregister_factory success kernel_session 20 longer_chain ≡ (chain, success)
deregister_factory-register_factory_example =
    deregister_factory-register_factory true success factories kernel_session 20 chain longer_chain
      register_second

name_ends : str_end (110 ∷ 0 ∷ []) 56 ≡ some 1
unfolding str_end
name_ends = refl

id_ends : str_end (0 ∷ []) 37 ≡ some 0
unfolding str_end
id_ends = refl

query_factory-Answered_example :
    Answered factories
      (λ f. answers f 2 (0 ∷ []))
      (110 ∷ 0 ∷ [])
      1
      longer_chain
      component_not_found
      (query_factory success factories answers user_session
        (some (110 ∷ 0 ∷ []))
        (some (0 ∷ []))
        true
        longer_chain)
query_factory-Answered_example =
    query_factory-Answered success factories answers user_session (110 ∷ 0 ∷ []) (0 ∷ []) 1 0
      longer_chain refl refl name_ends id_ends
