-- ===== src/Bucket/Encryption/Printed.antt =====
-- The encryption that is printed is read back.
use ironbucket.Base.{
  ◌≡◌, refl, ap, ◌∙◌, true, Option, none, some, List, [], ◌∷◌, ◌++◌, append_assoc, All,
}
use ironbucket.Base.Text.{Text, codes, text_eq, Lacks}
use ironbucket.Xml.{element, end_mark, listed}
use ironbucket.Xml.Tokens.{Token, plain, tag, render, render-append, Passes-Quiet}
use ironbucket.Xml.Sections.{layout}
use ironbucket.Xml.Elements.{element-Quiet}
use ironbucket.Xml.Items.{is_name, is_name→IsName, passes, passes→Passes}
use ironbucket.Xml.Leaves.{Fields, sections_of, select, head?, element-printed}
use ironbucket.Bucket.Encryption.{BucketEncryption, parse_encryption, encryption_xml}

abbrev heading : List Token
heading =
    tag (codes "?xml version=\"1.0\" encoding=\"UTF-8\"?")
    ∷ plain (codes "\n")
    ∷ tag (
        codes "ServerSideEncryptionConfiguration xmlns=\"http://s3.amazonaws.com/doc/2006-03-01/\"")
    ∷ plain (codes "\n    ")
    ∷ tag (codes "Rule")
    ∷ plain (codes "\n        ")
    ∷ tag (codes "ApplyServerSideEncryptionByDefault")
    ∷ []

abbrev ending : List Token
ending =
    plain (codes "\n        ")
    ∷ tag (codes "/ApplyServerSideEncryptionByDefault")
    ∷ plain (codes "\n    ")
    ∷ tag (codes "/Rule")
    ∷ plain (codes "\n")
    ∷ tag (codes "/ServerSideEncryptionConfiguration")
    ∷ []

abbrev white : Text
white = codes "\n            "

abbrev fields : BucketEncryption → Fields
fields e =
    (codes "SSEAlgorithm", e.algorithm ∷ []) ∷ (codes "KMSMasterKeyID", listed e.kms_key_id) ∷ []

abbrev behind : Option Text → List Token
behind none = plain white ∷ ending
behind (some key) = ending

encryption_tokens :
    (algorithm : Text) (kms : Option Text)
    → encryption_xml (record { algorithm = algorithm; kms_key_id = kms })
      ≡ render (
          heading
          ++ (layout
                (sections_of white (fields (record { algorithm = algorithm; kms_key_id = kms })))
              ++ behind kms))
unfolding encryption_xml
encryption_tokens algorithm none = refl
encryption_tokens algorithm (some key) =
    ap
      (λ r.
        render heading
        ++ (codes "\n            <SSEAlgorithm>"
            ++ (algorithm ++ (codes "</SSEAlgorithm>\n            <KMSMasterKeyID>" ++ r))))
      (append_assoc key (end_mark (codes "KMSMasterKeyID")) (render ending))

-- No angle bracket opens in the algorithm or in the key.
abbrev pub PlainEncryption : BucketEncryption → Type 0
PlainEncryption e = Lacks b'<' e.algorithm × All (Lacks b'<') (listed e.kms_key_id)

element_of :
    (n : Text) (e : BucketEncryption)
    → PlainEncryption e
    → is_name n ≡ true
    → passes n heading ≡ true
    → passes n (behind e.kms_key_id) ≡ true
    → element n (encryption_xml e) ≡ some (head? (select n (fields e)))
element_of n e h i j k =
    let name = is_name→IsName n i in
    let rest = layout (sections_of white (fields e)) ++ behind e.kms_key_id in
    ap (element n) (encryption_tokens e.algorithm e.kms_key_id ∙ render-append heading rest)
    ∙ element-Quiet n (render heading) (render rest)
        (Passes-Quiet n heading (render rest) name (passes→Passes n heading j))
    ∙ element-printed white (fields e) (behind e.kms_key_id) refl
        ((refl, (h.0, tt)), ((refl, h.1), tt)) n i k

behind-passes :
    (kms : Option Text)
    → (passes (codes "SSEAlgorithm") (behind kms) ≡ true)
      × (passes (codes "KMSMasterKeyID") (behind kms) ≡ true)
unfolding text_eq
behind-passes none = (refl, refl)
behind-passes (some key) = (refl, refl)

head-listed : (o : Option Text) → head? (listed o ++ []) ≡ o
head-listed none = refl
head-listed (some w) = refl

-- The encryption that a request for it is answered with is read back from a request that sets it.
pub parse_encryption-encryption_xml :
    (e : BucketEncryption) → PlainEncryption e → parse_encryption (encryption_xml e) ≡ some e
unfolding parse_encryption text_eq
parse_encryption-encryption_xml e h =
    let ends = behind-passes e.kms_key_id in
    let algorithm : element (codes "SSEAlgorithm") (encryption_xml e) ≡ some (some e.algorithm) =
      element_of (codes "SSEAlgorithm") e h refl refl ends.0 in
    let kms : element (codes "KMSMasterKeyID") (encryption_xml e) ≡ some e.kms_key_id =
      element_of (codes "KMSMasterKeyID") e h refl refl ends.1
      ∙ ap some (head-listed e.kms_key_id) in
    rw (algorithm, kms) refl
