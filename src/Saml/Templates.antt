-- ===== src/Saml/Templates.antt =====
-- test_suites/auth/saml_responses.py: the templates of the responses, as two providers send them.
use cloudify_system_tests.Prelude.{String, [], ◌∷◌}
use cloudify_system_tests.Text.{concat}

abbrev pub okta_saml_template : String
okta_saml_template = concat (
    "<?xml version=\"1.0\" encoding=\"UTF-8\"?>\n"
    ∷ "<saml2p:Response Destination=\"https://192.0.2.4/console/auth/saml/callback\" ID=\"id64321098765432123456789012\" IssueInstant=\"{issue_time}\" Version=\"2.0\" xmlns:saml2p=\"urn:oasis:names:tc:SAML:2.0:protocol\" xmlns:xs=\"http://www.w3.org/2001/XMLSchema\">\n"
    ∷ "  <saml2:Issuer Format=\"urn:oasis:names:tc:SAML:2.0:nameid-format:entity\" xmlns:saml2=\"urn:oasis:names:tc:SAML:2.0:assertion\">http://example.samlprovider.local/abc123</saml2:Issuer>\n"
    ∷ "  <ds:Signature xmlns:ds=\"http://www.w3.org/2000/09/xmldsig#\" Id=\"placeholder\"></ds:Signature>\n"
    ∷ "  <saml2:Subject xmlns:saml2=\"urn:oasis:names:tc:SAML:2.0:assertion\">\n"
    ∷ "    <saml2:NameID Format=\"urn:oasis:names:tc:SAML:1.1:nameid-format:unspecified\">{username}</saml2:NameID>\n"
    ∷ "    <saml2:SubjectConfirmation Method=\"urn:oasis:names:tc:SAML:2.0:cm:bearer\">\n"
    ∷ "      <saml2:SubjectConfirmationData NotOnOrAfter=\"{expire_time}\" Recipient=\"https://192.0.2.4/console/auth/saml/callback\"/>\n"
    ∷ "    </saml2:SubjectConfirmation>\n" ∷ "  </saml2:Subject>\n"
    ∷ "  <saml2:Assertion xmlns:saml2=\"urn:oasis:names:tc:SAML:2.0:assertion\" ID=\"id6432109876543212345678901\" IssueInstant=\"{issue_time}\" Version=\"2.0\">\n"
    ∷ "    <saml2:Conditions NotBefore=\"{not_before_time}\" NotOnOrAfter=\"{expire_time}\" xmlns:saml2=\"urn:oasis:names:tc:SAML:2.0:assertion\">\n"
    ∷ "      <saml2:AudienceRestriction>\n"
    ∷ "        <saml2:Audience>https://192.0.2.4/console/auth/saml/callback</saml2:Audience>\n"
    ∷ "      </saml2:AudienceRestriction>\n" ∷ "    </saml2:Conditions>\n"
    ∷ "    <saml2:AuthnStatement AuthnInstant=\"{issue_time}\" SessionIndex=\"id123456.7890\" xmlns:saml2=\"urn:oasis:names:tc:SAML:2.0:assertion\">\n"
    ∷ "      <saml2:AuthnContext>\n"
    ∷ "        <saml2:AuthnContextClassRef>urn:oasis:names:tc:SAML:2.0:ac:classes:PasswordProtectedTransport</saml2:AuthnContextClassRef>\n"
    ∷ "      </saml2:AuthnContext>\n" ∷ "    </saml2:AuthnStatement>\n"
    ∷ "    <saml2:AttributeStatement xmlns:saml2=\"urn:oasis:names:tc:SAML:2.0:assertion\">\n"
    ∷ "      {attributes}\n" ∷ "    </saml2:AttributeStatement>\n" ∷ "  </saml2:Assertion>\n"
    ∷ "</saml2p:Response>" ∷ [])

abbrev pub azure_saml_template : String
azure_saml_template = concat (
    "<?xml version=\"1.0\"?>\n"
    ∷ "<samlp:Response xmlns:samlp=\"urn:oasis:names:tc:SAML:2.0:protocol\" ID=\"_abcdef12-4321-0110-1001-0123456789ab\" Version=\"2.0\" IssueInstant=\"{issue_time}\" Destination=\"https://192.0.2.4/console/auth/saml/callback\">\n"
    ∷ "  <Issuer xmlns=\"urn:oasis:names:tc:SAML:2.0:assertion\">https://other.example.local/87654321-1111-2222-3333-4444221100aa/</Issuer>\n"
    ∷ "  <Signature xmlns=\"http://www.w3.org/2000/09/xmldsig#\" Id=\"placeholder\"></Signature>\n"
    ∷ "  <samlp:Status><samlp:StatusCode Value=\"urn:oasis:names:tc:SAML:2.0:status:Success\"/></samlp:Status>\n"
    ∷ "  <Assertion xmlns=\"urn:oasis:names:tc:SAML:2.0:assertion\" ID=\"_c01dcafe-face-cace-011e-feedadeadc0d\" IssueInstant=\"{issue_time}\" Version=\"2.0\">\n"
    ∷ "    <Issuer>https://sts.windows.net/11112222-3333-4444-5555-666677778888/</Issuer>\n"
    ∷ "    <Subject>\n"
    ∷ "      <NameID Format=\"urn:oasis:names:tc:SAML:1.1:nameid-format:emailAddress\">{username}</NameID>\n"
    ∷ "      <SubjectConfirmation Method=\"urn:oasis:names:tc:SAML:2.0:cm:bearer\">\n"
    ∷ "        <SubjectConfirmationData NotOnOrAfter=\"{not_before_time}\" Recipient=\"https://192.0.2.4/console/auth/saml/callback\"/>\n"
    ∷ "      </SubjectConfirmation>\n" ∷ "    </Subject>\n"
    ∷ "    <Conditions NotBefore=\"{not_before_time}\" NotOnOrAfter=\"{expire_time}\">\n"
    ∷ "      <AudienceRestriction>\n" ∷ "        <Audience>https://192.0.2.4/console</Audience>\n"
    ∷ "      </AudienceRestriction>\n" ∷ "    </Conditions>\n" ∷ "    <AttributeStatement>\n"
    ∷ "      <Attribute Name=\"http://schemas.microsoft.com/identity/claims/tenantid\">\n"
    ∷ "        <AttributeValue>12345678-abcd-dcba-8420-1111bbbbcccc</AttributeValue>\n"
    ∷ "      </Attribute>\n"
    ∷ "      <Attribute Name=\"http://schemas.microsoft.com/identity/claims/objectidentifier\">\n"
    ∷ "        <AttributeValue>aaaabbbb-cccc-dddd-eeee-ffff00002222</AttributeValue>\n"
    ∷ "      </Attribute>\n"
    ∷ "      <Attribute Name=\"http://schemas.microsoft.com/identity/claims/identityprovider\">\n"
    ∷ "        <AttributeValue>https://sts.windows.net/12345678-4321-5678-abcd98761234/</AttributeValue>\n"
    ∷ "      </Attribute>\n"
    ∷ "      <Attribute Name=\"http://schemas.microsoft.com/claims/authnmethodsreferences\">\n"
    ∷ "        <AttributeValue>http://schemas.microsoft.com/ws/2008/06/identity/authenticationmethod/password</AttributeValue>\n"
    ∷ "      </Attribute>\n" ∷ "      {attributes}\n" ∷ "    </AttributeStatement>\n"
    ∷ "    <AuthnStatement AuthnInstant=\"{issue_time}\" SessionIndex=\"_10102020-0303-4545-1987-ab21de43f8888\">\n"
    ∷ "      <AuthnContext>\n"
    ∷ "        <AuthnContextClassRef>urn:oasis:names:tc:SAML:2.0:ac:classes:Password</AuthnContextClassRef>\n"
    ∷ "      </AuthnContext>\n" ∷ "    </AuthnStatement>\n" ∷ "  </Assertion>\n"
    ∷ "</samlp:Response>" ∷ [])

abbrev pub okta_attr_string : String
okta_attr_string =
    "<saml2:Attribute Name=\"{attr_name}\" NameFormat=\"urn:oasis:names:tc:SAML:2.0:attrname-format:unspecified\">{attr_value}</saml2:Attribute>"

abbrev pub azure_attr_string : String
azure_attr_string = "<Attribute Name=\"{attr_name}\">{attr_value}</Attribute>"

abbrev pub okta_attr_value : String
okta_attr_value =
    "<saml2:AttributeValue xmlns:xs=\"http://www.w3.org/2001/XMLSchema\" xmlns:xsi=\"http://www.w3.org/2001/XMLSchema-instance\" xsi:type=\"xs:string\">{value}</saml2:AttributeValue>"

abbrev pub azure_attr_value : String
azure_attr_value = "<AttributeValue>{value}</AttributeValue>"
