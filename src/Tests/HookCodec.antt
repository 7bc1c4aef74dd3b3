-- ===== src/Tests/HookCodec.antt =====
-- A codec for the hooks of a configuration, which writes a text behind its length.
use wtp.Base.{ℕ, zero, suc, ◌≡◌, refl, sym, ap, ◌∙◌, Option, none, some, List, [], ◌∷◌}
use wtp.Base.Text.{Str}
use wtp.Base.Dict.{Dict}
use wtp.Base.Lists.{length}
use wtp.Store.{Codec, IsFaithful}
use wtp.Config.{Hook}
use wtp.Tests.Codec.{put_text, with_text, with_number, with_items-append}

abbrev put_env : Dict Str → Str → Str
put_env [] rest = rest
put_env ((key, value) ∷ env) rest = put_text key (put_text value (put_env env rest))

abbrev put_hook : Hook → Str → Str
put_hook h rest = put_text h.hook_type (
    put_text h.from (
      put_text h.to (put_text h.command (put_text h.work_dir (length h.env ∷ put_env h.env rest)))))

module _ {A : Type 0} where
  abbrev with_env : ℕ → Str → (Dict Str → Str → Option A) → Option A
  with_env zero t k = k [] t
  with_env (suc n) t k =
      with_text t
        (λ key t1. with_text t1 (λ value t2. with_env n t2 (λ env t3. k ((key, value) ∷ env) t3)))

  with_env-put_env :
      (env : Dict Str) (rest : Str) (k : Dict Str → Str → Option A)
      → with_env (length env) (put_env env rest) k ≡ k env rest
  with_env-put_env [] rest k = refl
  with_env-put_env ((key, value) ∷ env) rest k =
      with_items-append key _ _
      ∙ with_items-append value _ _
      ∙ with_env-put_env env rest (λ e t. k ((key, value) ∷ e) t)

  abbrev with_hook : Str → (Hook → Str → Option A) → Option A
  with_hook t k = with_text t (λ hook_type t1. with_text t1 (λ from t2. with_text t2 (λ to t3.
      with_text t3 (λ command t4. with_text t4 (λ work_dir t5. with_number t5 (λ n t6.
        with_env n t6 (λ env t7.
          k
            (record {
              hook_type = hook_type;
              from = from;
              to = to;
              command = command;
              env = env;
              work_dir = work_dir;
            })
            t7)))))))

  with_hook-put_hook :
      (h : Hook) (rest : Str) (k : Hook → Str → Option A) → with_hook (put_hook h rest) k ≡ k h rest
  with_hook-put_hook h rest k =
      with_items-append h.hook_type _ _
      ∙ with_items-append h.from _ _
      ∙ with_items-append h.to _ _
      ∙ with_items-append h.command _ _
      ∙ with_items-append h.work_dir _ _
      ∙ with_env-put_env h.env rest _

abbrev put_hooks : List Hook → Str
put_hooks [] = []
put_hooks (h ∷ hooks) = put_hook h (put_hooks hooks)

abbrev cons_hook : Hook → Option (List Hook) → Option (List Hook)
cons_hook h none = none
cons_hook h (some hooks) = some (h ∷ hooks)

abbrev get_hooks : ℕ → Str → Option (List Hook)
get_hooks zero t = some []
get_hooks (suc n) t = with_hook t (λ h t'. cons_hook h (get_hooks n t'))

get_hooks-put_hooks : (hooks : List Hook) → get_hooks (length hooks) (put_hooks hooks) ≡ some hooks
get_hooks-put_hooks [] = refl
get_hooks-put_hooks (h ∷ hooks) =
    with_hook-put_hook h (put_hooks hooks) (λ g t. cons_hook g (get_hooks (length hooks) t))
    ∙ ap (cons_hook h) (get_hooks-put_hooks hooks)

abbrev read_hooks : Str → Option (List Hook)
read_hooks [] = none
read_hooks (n ∷ t) = get_hooks n t

abbrev pub hook_codec : Codec (List Hook)
hook_codec = record { encode = λ hooks. some (length hooks ∷ put_hooks hooks); decode = read_hooks }

pub hook_codec-IsFaithful : IsFaithful hook_codec
hook_codec-IsFaithful hooks bytes h = sym (ap read h) ∙ get_hooks-put_hooks hooks
  where
    read : Option Str → Option (List Hook)
    read none = none
    read (some text) = read_hooks text
