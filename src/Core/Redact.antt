-- ===== src/Core/Redact.antt =====
-- `redactPath` of packages/core/src/index.ts, pattern by pattern.
use crosscode.Prelude.{Bool, List, [], ◌∷◌, any}
use crosscode.Prelude.Text.{Text}
use crosscode.Core.Regex.{
  Pattern, finish, many, seq, alt, test, class, word, words, opt, segment, not_slash,
}

-- `\.(json|ya?ml|pem|p12)$` and its likes.
abbrev extension : Pattern → Pattern
extension p = seq (class ".") (seq p finish)

unfoldable pub environment : Pattern
environment = segment (seq (word ".env") (alt finish (class ".")))

unfoldable pub tool_configs : Pattern
tool_configs = segment (
    seq (class ".") (
      seq
        (words "envrc" (
          "npmrc" ∷ "netrc" ∷ "pgpass" ∷ "htpasswd" ∷ "pypirc" ∷ "dockercfg" ∷ "git-credentials"
          ∷ []))
        finish))

unfoldable pub credential_directories : Pattern
credential_directories =
    segment
      (seq (class ".") (seq (words "aws" ("ssh" ∷ "gnupg" ∷ "kube" ∷ [])) (alt (class "/") finish)))

unfoldable pub private_keys : Pattern
private_keys = segment (
    seq (word "id_")
      (seq (words "rsa" ("dsa" ∷ "ecdsa" ∷ "ed25519" ∷ [])) (seq (opt (word ".pub")) finish)))

unfoldable pub credential_stores : Pattern
credential_stores = segment (
    seq (alt (seq (word "credential") (opt (word "s"))) (seq (word "secret") (opt (word "s"))))
      (alt finish (class "./")))

unfoldable pub credential_names : Pattern
credential_names =
    seq (class "-_") (seq (word "credential") (seq (opt (word "s")) (alt finish (class "-_./"))))

unfoldable pub service_accounts : Pattern
service_accounts = seq (word "service") (
    seq (class "-_") (
      seq (word "account") (
        seq (many not_slash) (
          extension (
            alt (word "json") (
              alt (seq (word "y") (seq (opt (word "a")) (word "ml")))
                (words "pem" ("p12" ∷ []))))))))

unfoldable pub kube_configs : Pattern
kube_configs =
    segment (seq (word "kubeconfig") (seq (opt (seq (class "-_.") (many not_slash))) finish))

unfoldable pub key_files : Pattern
key_files = extension (
    words "pem" (
      "key" ∷ "p8" ∷ "p12" ∷ "pfx" ∷ "jks" ∷ "jceks" ∷ "keystore" ∷ "keytab" ∷ "ppk" ∷ "kdbx"
      ∷ "ovpn" ∷ "asc" ∷ "gpg" ∷ "pgp" ∷ []))

unfoldable pub terraform_variables : Pattern
terraform_variables = seq (word ".tfvars") (seq (opt (word ".json")) finish)

unfoldable pub terraform_state : Pattern
terraform_state = seq (word ".tfstate") (seq (opt (word ".backup")) finish)

unfoldable pub secret_path_patterns : List Pattern
unfolding environment tool_configs credential_directories private_keys credential_stores
    credential_names service_accounts kube_configs key_files terraform_variables terraform_state
secret_path_patterns =
    environment ∷ tool_configs ∷ credential_directories ∷ private_keys ∷ credential_stores
    ∷ credential_names ∷ service_accounts ∷ kube_configs ∷ key_files ∷ terraform_variables
    ∷ terraform_state ∷ []

unfoldable pub redact_path : Text → Bool
unfolding secret_path_patterns
redact_path path = any (λ pattern. test pattern path) secret_path_patterns
