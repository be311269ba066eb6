-- ===== src/Hooks/Context.antt =====
-- The class InvocationContext of src/hook/hook.hpp, over what frida-gum gives of an invocation. A value of a type
-- that fits a pointer is a word.
use clientplugin.Base.{ℕ}

-- The functions of frida-gum on an invocation, whose contexts are of type C.
pub record GumInvocation (C : Type 0) : Type 0 where
  pub get_nth_argument : C → ℕ → ℕ
  pub replace_nth_argument : C → ℕ → ℕ → C
  pub get_return_value : C → ℕ
  pub replace_return_value : C → ℕ → C
  pub get_thread_id : C → ℕ

module _ {C : Type 0} ⦃gum : GumInvocation C⦄ where
  unfoldable pub get_arg : C → ℕ → ℕ
  get_arg context index = gum.get_nth_argument context index

  unfoldable pub set_arg : C → ℕ → ℕ → C
  set_arg context index value = gum.replace_nth_argument context index value

  unfoldable pub get_return : C → ℕ
  get_return context = gum.get_return_value context

  unfoldable pub set_return : C → ℕ → C
  set_return context value = gum.replace_return_value context value

  unfoldable pub thread_id : C → ℕ
  thread_id context = gum.get_thread_id context
