-- ===== src/Bucket/Encryption.antt =====
-- The encryption of a bucket: how `handle_bucket_put` reads it from XML and how `handle_bucket_get`
-- prints it.
pub mod Printed
use ironbucket.Base.{Bool, not, ◌&&◌, Option, none, some, [], ◌∷◌, ◌++◌, ◌>>=◌}
use ironbucket.Base.Text.{Text, codes, text_eq}
use ironbucket.Xml.{element, mark, end_mark}

pub record BucketEncryption : Type 0 where
  pub algorithm : Text
  pub kms_key_id : Option Text

unfoldable pub algorithm_or : Option Text → Text
algorithm_or none = codes "AES256"
algorithm_or (some algorithm) = algorithm

-- None for a panic.
unfoldable pub parse_encryption : Text → Option BucketEncryption
unfolding algorithm_or
parse_encryption body = do
  algorithm ← element (codes "SSEAlgorithm") body
  kms_key_id ← element (codes "KMSMasterKeyID") body
  some (record { algorithm = algorithm_or algorithm; kms_key_id = kms_key_id })

unfoldable pub bad_algorithm : Text → Bool
unfolding text_eq
bad_algorithm algorithm =
    not (text_eq algorithm (codes "AES256")) && not (text_eq algorithm (codes "aws:kms"))

unfoldable pub kms_xml : Option Text → Text
kms_xml none = []
kms_xml (some key) = mark (codes "KMSMasterKeyID") ++ (key ++ end_mark (codes "KMSMasterKeyID"))

unfoldable pub encryption_xml : BucketEncryption → Text
unfolding kms_xml
encryption_xml encryption =
    codes
      "<?xml version=\"1.0\" encoding=\"UTF-8\"?>\n<ServerSideEncryptionConfiguration xmlns=\"http://s3.amazonaws.com/doc/2006-03-01/\">\n    <Rule>\n        <ApplyServerSideEncryptionByDefault>\n            <SSEAlgorithm>"
    ++ (encryption.algorithm
        ++ (codes "</SSEAlgorithm>\n            "
            ++ (kms_xml encryption.kms_key_id
                ++ codes
                    "\n        </ApplyServerSideEncryptionByDefault>\n    </Rule>\n</ServerSideEncryptionConfiguration>")))
