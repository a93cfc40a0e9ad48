-- ===== src/UnifyCi/Tests.antt =====
-- pipeline/unifycirp.py: an import against a small service.
use yyou.Common.{◌≡◌, some}
use yyou.ReportPortal.Tests.{args}
use yyou.ReportPortal.ImportTests.{import_args, host, importer}
use yyou.ReportPortal.Import as Import
use yyou.ReportPortal.Import.{import_attributes, get_profile_attr}
use yyou.UnifyCi.{att_dict, log_result}
use yyou.UnifyCi.Reference.{import_with, import_result-import_with}

import_result-import_with_example :
    (Import.import_result args import_args host importer
      ≡ import_with args import_args host importer
          (import_attributes args import_args host (get_profile_attr host import_args)))
    × (log_result args import_args host importer
        ≡ import_with args import_args host importer (some (att_dict args import_args host)))
import_result-import_with_example = import_result-import_with args import_args host importer
